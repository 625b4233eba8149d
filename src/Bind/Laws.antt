-- ===== src/Bind/Laws.antt =====
-- bind: the addresses that `Sniff` returns, and those with a number.
use goji.Prelude.{
  ℕ, zero, suc, ◌^◌, ◌<◌, Bool, true, false, Option, none, some, List, [], ◌∷◌, ◌++◌, ltb,
  if◌then◌else◌, ◌≡◌, refl, sym, ap, subst, ◌∙◌, inl, inr, arith, Bool-cases, Option-cases,
}
use Prim.Native.Nat.{◌/◌}
use mathlib.Core.Option.{some-injective, none-ne-some}
use goji.Prelude.Bytes.{Bytes, codes}
use goji.Prelude.Int.{ℤ, pos, negsuc}
use goji.Prelude.Decimal.{format, digits, atoi-format}
use goji.Bind.{
  Process, State, using_einhorn, einhorn_fd_map, einhorn_fds, cons_fd, init, sniff, Target, tcp,
  file, listens, contains, einhorn_bind, einhorn_file, listen_to, at_most, is_positive,
  with_einhorn, einhorn_count, einhorn_init, systemd_count, then_systemd, rounds, is_empty,
  new_state, sniff_port, using_systemd, env_int,
}

-- The numbers and the names before them have no colon.
contains-digits :
    (f n : ℕ) (out : Bytes) → contains out b':' ≡ false → contains (digits f n out) b':' ≡ false
unfolding digits
contains-digits zero n out h = h
contains-digits (suc f) n out h = elim (Bool-cases (ltb n 10)) [
  | inl e ↦ rw e (ground arith)
  | inr e ↦ rw e (contains-digits f (n / 10) _ (ground arith))
]

pub listen_to-fd :
    (p : Process) (st : State) (n : ℕ)
    → n < 2 ^ 63
    → listen_to p st (codes "fd@" ++ format n) ≡ listens (file (pos n) (codes "fd@" ++ format n))
unfolding listen_to
listen_to-fd p st n h = rw (contains-digits 20 n [] refl) (rw (atoi-format n h) refl)

pub listen_to-einhorn :
    (p : Process) (st : State) (n : ℕ)
    → n < 2 ^ 63
    → listen_to p st (codes "einhorn@" ++ format n) ≡ einhorn_bind p st (pos n)
unfolding listen_to
listen_to-einhorn p st n h = rw (contains-digits 20 n [] refl) (rw (atoi-format n h) refl)

-- The process would not have passed `init` if the first descriptor could not be read.
HasFd : Process → ℤ → Type 0
HasFd p n = is_positive n ≡ true → (fd : ℤ) × (einhorn_fd_map p 0 ≡ some fd)

HasFd-fds : (p : Process) (n : ℤ) (fds : List ℤ) → einhorn_fds p (rounds n) 0 ≡ some fds → HasFd p n
unfolding HasFd einhorn_fds
HasFd-fds p (pos zero) fds e h = cc
HasFd-fds p (pos (suc k)) fds e h = elim (Option-cases (einhorn_fd_map p 0)) [
  | inl none_read ↦
      absurd (none-ne-some _ (sym (ap (λ o. cons_fd o (einhorn_fds p k 1)) none_read) ∙ e))
  | inr read ↦ read
]
HasFd-fds p (negsuc k) fds e h = cc

HasFd-with_einhorn :
    (p : Process) (n : ℤ) (o : Option (List ℤ)) (st st' : State)
    → einhorn_fds p (rounds n) 0 ≡ o
    → with_einhorn n o st ≡ some st'
    → HasFd p st'.einhorn_num_fds
HasFd-with_einhorn p n none st st' e h = cc
HasFd-with_einhorn p n (some fds) st st' e h =
    subst (HasFd p) (ap (λ t. t.einhorn_num_fds) (some-injective _ _ h)) (HasFd-fds p n fds e)

HasFd-zero : (p : Process) → HasFd p (pos 0)
unfolding HasFd
HasFd-zero p h = cc

HasFd-einhorn_count :
    (p : Process) (o : Option ℤ) (st st' : State)
    → einhorn_count p o st ≡ some st'
    → HasFd p st'.einhorn_num_fds
HasFd-einhorn_count p none st st' h =
    subst (HasFd p) (ap (λ t. t.einhorn_num_fds) (some-injective _ _ h)) (HasFd-zero p)
HasFd-einhorn_count p (some n) st st' h =
    HasFd-with_einhorn p n (einhorn_fds p (rounds n) 0) st st' refl h

HasFd-einhorn_if :
    (p : Process) (b : Bool) (st : State)
    → (if b
        then einhorn_count p (env_int p (codes "EINHORN_FD_COUNT")) new_state
        else some new_state)
      ≡ some st
    → HasFd p st.einhorn_num_fds
HasFd-einhorn_if p true st h = HasFd-einhorn_count p _ _ st h
HasFd-einhorn_if p false st h =
    subst (HasFd p) (ap (λ t. t.einhorn_num_fds) (some-injective _ _ h)) (HasFd-zero p)

systemd_count-keeps :
    (o : Option ℤ) (st : State) → (systemd_count o st).einhorn_num_fds ≡ st.einhorn_num_fds
systemd_count-keeps none st = refl
systemd_count-keeps (some n) st = refl

systemd_if-keeps :
    (b : Bool) (o : Option ℤ) (st : State)
    → (if b then systemd_count o st else st).einhorn_num_fds ≡ st.einhorn_num_fds
systemd_if-keeps true o st = systemd_count-keeps o st
systemd_if-keeps false o st = refl

HasFd-then_systemd :
    (p : Process) (o : Option State) (st : State)
    → ((st' : State) → o ≡ some st' → HasFd p st'.einhorn_num_fds)
    → then_systemd p o ≡ some st
    → HasFd p st.einhorn_num_fds
HasFd-then_systemd p none st f h = cc
HasFd-then_systemd p (some st') st f h =
    subst (HasFd p)
      (sym (systemd_if-keeps _ _ st') ∙ ap (λ t. t.einhorn_num_fds) (some-injective _ _ h))
      (f st' refl)

HasFd-init : (p : Process) (st : State) → init p ≡ some st → HasFd p st.einhorn_num_fds
unfolding init
HasFd-init p st h =
    HasFd-then_systemd p (einhorn_init p new_state) st (λ st' e. HasFd-einhorn_if p _ st' e) h

at_most-zero : (n : ℤ) → is_positive n ≡ true → at_most n 0 ≡ false
at_most-zero (pos n) h = ground arith
at_most-zero (negsuc n) h = cc

einhorn_bind-first :
    (p : Process) (st : State) (fd : ℤ)
    → using_einhorn st ≡ true
    → einhorn_fd_map p 0 ≡ some fd
    → einhorn_bind p st (pos 0) ≡ listens (file fd (codes "einhorn@0"))
unfolding digits
einhorn_bind-first p st fd u e =
    rw u (rw (at_most-zero st.einhorn_num_fds u) (ap (einhorn_file 0) e))

sniff_port-tcp :
    (p : Process) (st : State) (port : Bytes)
    → is_empty (sniff_port port) ≡ false
    → listen_to p st (sniff_port port) ≡ listens (tcp (sniff_port port))
unfolding listen_to
sniff_port-tcp p st [] h = cc
sniff_port-tcp p st (c ∷ port) h = refl

sniff-choice :
    (p : Process) (st : State)
    → is_empty (p.getenv (codes "GOJI_BIND")) ≡ true
    → sniff p st ≡ (
        if using_einhorn st
        then codes "einhorn@0"
        else if using_systemd st
        then codes "fd@3"
        else sniff_port (p.getenv (codes "PORT")))
unfolding sniff
sniff-choice p st h = rw h refl

-- What the process was started with: Einhorn's first socket where it has sockets, the first
-- descriptor of systemd where that gave any, and elsewhere the port of PORT.
abbrev pub Chosen : Process → Bool → Bool → Target → Type 0
Chosen p true systemd t =
    (fd : ℤ) × (einhorn_fd_map p 0 ≡ some fd) × (t ≡ file fd (codes "einhorn@0"))
Chosen p false true t = t ≡ file (pos 3) (codes "fd@3")
Chosen p false false t = t ≡ tcp (sniff_port (p.getenv (codes "PORT")))

choice-listens :
    (p : Process) (st : State) (e d : Bool)
    → using_einhorn st ≡ e
    → HasFd p st.einhorn_num_fds
    → let s =
        if e
        then codes "einhorn@0"
        else if d
        then codes "fd@3"
        else sniff_port (p.getenv (codes "PORT")) in
      is_empty s ≡ false → (t : Target) × (listen_to p st s ≡ listens t) × Chosen p e d t
unfolding HasFd digits
choice-listens p st true d u f h =
    let (fd, read) = f u in
    (
      file fd (codes "einhorn@0"),
      listen_to-einhorn p st 0 (omega arith) ∙ einhorn_bind-first p st fd u read,
      (fd, read, refl),
    )
choice-listens p st false true u f h =
    (file (pos 3) (codes "fd@3"), listen_to-fd p st 3 (omega arith), refl)
choice-listens p st false false u f h = (tcp _, sniff_port-tcp p st _ h, refl)

-- In a process that has passed init and has no GOJI_BIND, listenTo takes an address that Sniff
-- returns and that is not empty for what Sniff meant: it goes on to open Einhorn's first socket where
-- the process has sockets of Einhorn, the descriptor 3 where it has one of systemd, and elsewhere to
-- listen on the port of PORT. Before it calls net for that it neither returns an error nor ends the
-- process; whether net then accepts the address is not said.
pub sniff_accepted :
    (p : Process) (st : State)
    → init p ≡ some st
    → is_empty (p.getenv (codes "GOJI_BIND")) ≡ true
    → is_empty (sniff p st) ≡ false
    → (t : Target) × (listen_to p st (sniff p st) ≡ listens t)
      × Chosen p (using_einhorn st) (using_systemd st) t
sniff_accepted p st i g h =
    let e = sniff-choice p st g in
    rw e (
      choice-listens p st (using_einhorn st) (using_systemd st) refl (HasFd-init p st i)
        (sym (ap is_empty e) ∙ h))

-- For a number below 2^63, listenTo reads the number back from fd@ and einhorn@ with the number
-- printed behind: it opens that descriptor, or binds that Einhorn socket.
pub numbered_address :
    (p : Process) (st : State) (n : ℕ)
    → n < 2 ^ 63
    → (listen_to p st (codes "fd@" ++ format n) ≡ listens (file (pos n) (codes "fd@" ++ format n)))
      × (listen_to p st (codes "einhorn@" ++ format n) ≡ einhorn_bind p st (pos n))
numbered_address p st n h = (listen_to-fd p st n h, listen_to-einhorn p st n h)
