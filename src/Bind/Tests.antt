-- ===== src/Bind/Tests.antt =====
-- bind: processes under Einhorn and under systemd.
use goji.Prelude.{some, [], ◌∷◌, ◌++◌, if◌then◌else◌, ◌≡◌, refl, arith}
use goji.Prelude.Bytes.{Bytes, codes, str_eq}
use goji.Prelude.Int.{pos}
use goji.Prelude.Decimal.{atoi, value, digits, format}
use goji.Bind.{
  Process, State, einhorn_fds, init, sniff, using_einhorn, using_systemd, Target, file, listens,
  listen_to, einhorn_bind, fails, too_big, tcp, unix, bad_bind,
}
use goji.Bind.Laws.{Chosen, sniff_accepted, numbered_address}

abbrev einhorn_env : Bytes → Bytes
einhorn_env v =
    if str_eq v (codes "EINHORN_MASTER_PID")
    then codes "77"
    else if str_eq v (codes "EINHORN_FD_COUNT")
    then codes "2"
    else if str_eq v (codes "EINHORN_FD_0")
    then codes "5"
    else if str_eq v (codes "EINHORN_FD_1")
    then codes "6"
    else []

abbrev worker : Process
worker = record { getenv = einhorn_env; pid = 80; ppid = 77 }

abbrev worker_state : State
worker_state = record {
  einhorn_num_fds = pos 2;
  systemd_num_fds = pos 0;
  close_on_exec = pos 5 ∷ pos 6 ∷ [];
}

worker-init : init worker ≡ some worker_state
unfolding init einhorn_fds atoi value digits
worker-init = refl

worker-sniff : sniff worker worker_state ≡ codes "einhorn@0"
unfolding sniff
worker-sniff = refl

other_fds :
    (listen_to worker worker_state (codes "einhorn@1") ≡ listens (file (pos 6) (codes "einhorn@1")))
    × (listen_to worker worker_state (codes "einhorn@2") ≡ fails too_big)
unfolding listen_to atoi value digits
other_fds = (refl, refl)

addresses :
    (listen_to worker worker_state (codes "127.0.0.1:80") ≡ listens (tcp (codes "127.0.0.1:80")))
    × ((listen_to worker worker_state (codes "/run/s") ≡ listens (unix (codes "/run/s")))
        × (listen_to worker worker_state (codes "x") ≡ fails bad_bind))
unfolding listen_to
addresses = (refl, (refl, refl))

sniff_accepted_example :
    (t : Target) × (listen_to worker worker_state (sniff worker worker_state) ≡ listens t)
    × Chosen worker (using_einhorn worker_state) (using_systemd worker_state) t
unfolding sniff
sniff_accepted_example = sniff_accepted worker worker_state worker-init refl refl

numbered_address_example :
    (listen_to worker worker_state (codes "fd@" ++ format 12)
      ≡ listens (file (pos 12) (codes "fd@" ++ format 12)))
    × (listen_to worker worker_state (codes "einhorn@" ++ format 12)
        ≡ einhorn_bind worker worker_state (pos 12))
numbered_address_example = numbered_address worker worker_state 12 (omega arith)
