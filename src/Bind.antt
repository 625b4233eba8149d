-- ===== src/Bind.antt =====
-- bind/bind.go, bind/einhorn.go and bind/systemd.go: what an address names, and which address the
-- environment suggests. A socket that the code would open is a target; opening it is the operating
-- system's. `log.Fatal` ends the process.
pub mod Laws
mod Tests
use goji.Prelude.{
  ℕ, zero, suc, ◌+◌, ◌^◌, ◌<◌, Bool, true, false, not, ◌&&◌, ◌||◌, Option, none, some, List, [],
  ◌∷◌, ◌++◌, ◌==◌, ltb, leb, if◌then◌else◌, drop,
}
use goji.Prelude.Bytes.{Bytes, codes, has_prefix, str_eq}
use goji.Prelude.Int.{ℤ, pos, negsuc}
use goji.Prelude.Decimal.{atoi, format}

-- The process: `os.Getenv`, `os.Getpid` and `os.Getppid`.
pub record Process : Type 0 where
  pub getenv : Bytes → Bytes
  pub pid : ℕ
  pub ppid : ℕ

-- `einhornNumFds` and `systemdNumFds`, and the descriptors given to `syscall.CloseOnExec`.
pub record State : Type 0 where
  pub einhorn_num_fds : ℤ
  pub systemd_num_fds : ℤ
  pub close_on_exec : List ℤ

abbrev pub env_int : Process → Bytes → Option ℤ
env_int p val = atoi (p.getenv val)

abbrev pub is_pid : ℕ → Option ℤ → Bool
is_pid pid (some (pos n)) = n == pid
is_pid pid _ = false

abbrev pub is_positive : ℤ → Bool
is_positive (pos n) = ltb 0 n
is_positive (negsuc n) = false

abbrev pub using_einhorn : State → Bool
using_einhorn st = is_positive st.einhorn_num_fds

abbrev pub using_systemd : State → Bool
using_systemd st = is_positive st.systemd_num_fds

-- `einhornFdMap`: `none` ends the process.
abbrev pub einhorn_fd_map : Process → ℕ → Option ℤ
einhorn_fd_map p n = env_int p (codes "EINHORN_FD_" ++ format n)

-- A count of rounds, for `i < n` with `i` from 0.
abbrev pub rounds : ℤ → ℕ
rounds (pos n) = n
rounds (negsuc n) = 0

abbrev pub cons_fd : Option ℤ → Option (List ℤ) → Option (List ℤ)
cons_fd (some fd) (some fds) = some (fd ∷ fds)
cons_fd _ _ = none

-- The loop of `einhornInit` from the round `i` on.
unfoldable pub einhorn_fds : Process → ℕ → ℕ → Option (List ℤ)
einhorn_fds p zero i = some []
einhorn_fds p (suc k) i = cons_fd (einhorn_fd_map p i) (einhorn_fds p k (suc i))

abbrev pub with_einhorn : ℤ → Option (List ℤ) → State → Option State
with_einhorn n none st = none
with_einhorn n (some fds) st =
    some (record st { einhorn_num_fds = n; close_on_exec = st.close_on_exec ++ fds })

abbrev pub einhorn_count : Process → Option ℤ → State → Option State
einhorn_count p none st = some (record st { einhorn_num_fds = pos 0 })
einhorn_count p (some n) st = with_einhorn n (einhorn_fds p (rounds n) 0) st

-- `einhornInit`
abbrev pub einhorn_init : Process → State → Option State
einhorn_init p st =
    if is_pid p.ppid (env_int p (codes "EINHORN_MASTER_PID"))
    then einhorn_count p (env_int p (codes "EINHORN_FD_COUNT")) st
    else some st

abbrev pub systemd_min_fd : ℕ
systemd_min_fd = 3

abbrev pub systemd_fds : ℕ → ℕ → List ℤ
systemd_fds zero i = []
systemd_fds (suc k) i = pos (systemd_min_fd + i) ∷ systemd_fds k (suc i)

abbrev pub systemd_count : Option ℤ → State → State
systemd_count none st = record st { systemd_num_fds = pos 0 }
systemd_count (some n) st = record st {
  systemd_num_fds = n;
  close_on_exec = st.close_on_exec ++ systemd_fds (rounds n) 0;
}

-- `systemdInit`
abbrev pub systemd_init : Process → State → State
systemd_init p st =
    if is_pid p.pid (env_int p (codes "LISTEN_PID"))
    then systemd_count (env_int p (codes "LISTEN_FDS")) st
    else st

abbrev pub new_state : State
new_state = record { einhorn_num_fds = pos 0; systemd_num_fds = pos 0; close_on_exec = [] }

abbrev pub then_systemd : Process → Option State → Option State
then_systemd p none = none
then_systemd p (some st) = some (systemd_init p st)

-- `init` of bind.go.
unfoldable pub init : Process → Option State
init p = then_systemd p (einhorn_init p new_state)

abbrev pub is_empty : Bytes → Bool
is_empty [] = true
is_empty (c ∷ s) = false

abbrev pub sniff_port : Bytes → Bytes
sniff_port [] = []
sniff_port (c ∷ port) = b':' ∷ c ∷ port

-- `Sniff`
unfoldable pub sniff : Process → State → Bytes
sniff p st =
    let bind = p.getenv (codes "GOJI_BIND") in
    if not (is_empty bind)
    then bind
    else if using_einhorn st
    then codes "einhorn@0"
    else if using_systemd st
    then codes "fd@3"
    else sniff_port (p.getenv (codes "PORT"))

abbrev pub default_bind : Bytes
default_bind = codes ":8000"

-- `WithFlag`, and the value that the command line gives to the flag, if any.
abbrev pub with_flag : Process → State → Option Bytes → Bytes
with_flag p st (some given) = given
with_flag p st none = let s = sniff p st in if is_empty s then default_bind else s

-- What `net.Listen` or `net.FileListener` is called with.
pub data Target : Type 0 where
  tcp : Bytes → Target
  unix : Bytes → Target
  file : ℤ → Bytes → Target

pub data BindError : Type 0 where
  bad_fd : BindError
  bad_einhorn : BindError
  not_einhorn : BindError
  too_big : BindError
  bad_bind : BindError

pub data Outcome : Type 0 where
  listens : Target → Outcome
  fails : BindError → Outcome
  exits : Outcome

abbrev pub contains : Bytes → ℕ → Bool
contains [] b = false
contains (c ∷ s) b = c == b || contains s b

abbrev pub einhorn_file : ℕ → Option ℤ → Outcome
einhorn_file n none = exits
einhorn_file n (some fno) = listens (file fno (codes "einhorn@" ++ format n))

abbrev pub at_most : ℤ → ℕ → Bool
at_most (pos m) n = leb m n
at_most (negsuc m) n = true

-- `einhornBind`
abbrev pub einhorn_bind : Process → State → ℤ → Outcome
einhorn_bind p st (negsuc n) = if using_einhorn st then fails too_big else fails not_einhorn
einhorn_bind p st (pos n) =
    if not (using_einhorn st)
    then fails not_einhorn
    else if at_most st.einhorn_num_fds n
    then fails too_big
    else einhorn_file n (einhorn_fd_map p n)

abbrev pub listen_fd : Bytes → Option ℤ → Outcome
listen_fd bind none = fails bad_fd
listen_fd bind (some fd) = listens (file fd bind)

abbrev pub listen_einhorn : Process → State → Option ℤ → Outcome
listen_einhorn p st none = fails bad_einhorn
listen_einhorn p st (some fd) = einhorn_bind p st fd

-- `listenTo`
unfoldable pub listen_to : Process → State → Bytes → Outcome
listen_to p st bind =
    if contains bind b':'
    then listens (tcp bind)
    else if has_prefix bind (codes ".") || has_prefix bind (codes "/")
    then listens (unix bind)
    else if has_prefix bind (codes "fd@")
    then listen_fd bind (atoi (drop 3 bind))
    else if has_prefix bind (codes "einhorn@")
    then listen_einhorn p st (atoi (drop 8 bind))
    else fails bad_bind

-- `Socket`: `opens` says whether the operating system opens the target. `none` ends the process.
abbrev pub socket_of : (Target → Bool) → Outcome → Option Target
socket_of opens (listens t) = if opens t then some t else none
socket_of opens _ = none

abbrev pub socket : (Target → Bool) → Process → State → Bytes → Option Target
socket opens p st bind = socket_of opens (listen_to p st bind)

-- `Ready`: `readied` says whether `Do` was called before, and the messages sent come out.
abbrev pub ready : Process → State → Bool → List Bytes × Bool
ready p st true = ([], true)
ready p st false = (
  if using_einhorn st
      then (codes "{\"command\": \"worker:ack\", \"pid\": " ++ format p.pid ++ codes "}\n") ∷ []
      else [],
  true,
)
