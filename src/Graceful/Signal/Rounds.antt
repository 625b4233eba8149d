-- ===== src/Graceful/Signal/Rounds.antt =====
-- graceful/signal.go and graceful/graceful.go: what the signals start, and the errors that a server
-- returns.
use goji.Prelude.{
  All, ℕ, ◌+◌, ◌-◌, Bool, true, false, not, ◌&&◌, Option, none, some, List, [], ◌∷◌, ◌++◌, ◌==◌,
  ltb, ◌≡◌, refl, ap, sym, ◌∙◌, inl, inr, ◌⊎◌, ◌↔◌, arith, Bool-cases, if◌then◌else◌,
}
use mathlib.Core.List.{append-nil, append_assoc}
use goji.Graceful.Signal.Unforced.{IsGraceful}
use goji.Prelude.Bytes.{codes, str_eq_iff, Bytes}
use goji.Graceful.Signal.Loop.{
  start_action, Config, Start, sig_loop, sig_round, AcceptError, op_error, other_error, err_closing,
  peaceful_error, starts_at,
}

sig_loop-append :
    (c : Config) (last : Option ℕ) (xs : List (ℕ × ℕ)) (sig now : ℕ) (ys : List (ℕ × ℕ))
    → sig_loop c last (xs ++ (sig, now) ∷ ys)
      ≡ sig_loop c last (xs ++ (sig, now) ∷ []) ++ sig_loop c (some now) ys
unfolding sig_loop
sig_loop-append c last [] sig now ys = ap (λ l. l ++ sig_loop c (some now) ys) (sym (append-nil _))
sig_loop-append c last ((s, t) ∷ xs) sig now ys =
    ap (◌++◌ (sig_round c s t last)) (sig_loop-append c (some t) xs sig now ys)
    ∙ sym (append_assoc (sig_round c s t last) _ _)

-- What a signal that comes after another starts.
abbrev pub expected : Config → ℕ → ℕ → ℕ → List Start
expected c gap sig now =
    if not (c.double_kick == 0) && ltb gap c.double_kick
    then starts_at now true sig ∷ []
    else if c.timeout == 0
    then starts_at now false sig ∷ []
    else starts_at (now + c.timeout) true sig ∷ starts_at now false sig ∷ []

round-expected :
    (c : Config) (sig now last : ℕ)
    → sig_round c sig now (some last) ≡ expected c (now - last) sig now
round-expected c sig now last =
    elim (Bool-cases (not (c.double_kick == 0) && ltb (now - last) c.double_kick)) [
      | inl e ↦ rw e (forced (not (c.timeout == 0)))
      | inr e ↦ rw e (unforced (c.timeout == 0))
    ]
  where
    forced :
        (b : Bool)
        → (if b && false then starts_at (now + c.timeout) true sig ∷ [] else [])
            ++ starts_at now true sig ∷ []
          ≡ starts_at now true sig ∷ []
    forced true = refl
    forced false = refl

    unforced :
        (b : Bool)
        → (if not b && true then starts_at (now + c.timeout) true sig ∷ [] else [])
            ++ starts_at now false sig ∷ []
          ≡ (if b
              then starts_at now false sig ∷ []
              else starts_at (now + c.timeout) true sig ∷ starts_at now false sig ∷ [])
    unforced true = refl
    unforced false = refl

-- For any configuration and signals, a signal that comes after another starts a forceful shutdown
-- alone where the time between them is below a window that is not 0, and elsewhere a graceful
-- one, with a forceful one when the timeout has passed if that is not 0. The signals before it start
-- what they start without it, and those after it what they start where the last signal, from which
-- the first of them is timed, came at its time.
pub sig_loop_lem :
    (c : Config) (last : Option ℕ) (xs : List (ℕ × ℕ)) (s t sig now : ℕ) (ys : List (ℕ × ℕ))
    → sig_loop c last (xs ++ (s, t) ∷ (sig, now) ∷ ys)
      ≡ sig_loop c last (xs ++ (s, t) ∷ [])
        ++ (expected c (now - t) sig now ++ sig_loop c (some now) ys)
unfolding sig_loop
sig_loop_lem c last xs s t sig now ys =
    sig_loop-append c last xs s t ((sig, now) ∷ ys)
    ∙ ap (λ r. sig_loop c last (xs ++ (s, t) ∷ []) ++ (r ++ sig_loop c (some now) ys))
        (round-expected c sig now t)

-- Without a window and a timeout no signal is forceful.
sig_loop-IsGraceful :
    (c : Config) (last : Option ℕ) (arrivals : List (ℕ × ℕ))
    → c.double_kick ≡ 0
    → c.timeout ≡ 0
    → All (λ s. IsGraceful (start_action s)) (sig_loop c last arrivals)
unfolding sig_loop
sig_loop-IsGraceful c last [] d t = tt
sig_loop-IsGraceful c last ((sig, now) ∷ arrivals) d t =
    rw d (rw t (refl, sig_loop-IsGraceful c (some now) arrivals d t))

abbrev pub IsAccept : Bytes → Type 0
IsAccept op = (op ≡ codes "AcceptEx") ⊎ (op ≡ codes "accept")

-- The errors that are swallowed.
abbrev pub IsPeaceful : Bool → AcceptError → Type 0
IsPeaceful closing (op_error op err) = (closing ≡ true) × (IsAccept op × (err ≡ err_closing))
IsPeaceful closing (other_error n) = true ≡ false

pub peaceful_error-nil :
    (closing : Bool) (err : AcceptError)
    → (peaceful_error closing (some err) ≡ none) ↔ IsPeaceful closing err
peaceful_error-nil true (op_error op err) = ground (
  arith,
  str_eq_iff op (codes "AcceptEx"),
  str_eq_iff op (codes "accept"),
  str_eq_iff err err_closing,
)
peaceful_error-nil true (other_error n) = (λ h. cc, λ h. cc)
peaceful_error-nil false (op_error op err) = (λ h. cc, λ h. cc)
peaceful_error-nil false (other_error n) = (λ h. cc, λ h. cc)
