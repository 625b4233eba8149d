-- ===== src/Graceful/Signal/Liveness/Cells.antt =====
-- graceful/signal.go: the goroutine that runs a body is at its `Do`.
use goji.Prelude.{
  ℕ, Bool, true, false, some, List, ◌≡◌, sym, subst, inl, inr, Bool-cases, get_elem?,
}
use goji.Graceful.Signal.{Once, fresh, running, done, is_done, Shared}
use goji.Graceful.Signal.Threads.{
  Pc, at_pre, at_close, at_post, at_notify, Thread, next_pc, set_thread, System,
}
use goji.Graceful.Signal.Liveness.Runners.{
  same, enters, goes, ends, Moves, Runner, Moves-Runner, set_thread-Runner,
}
use goji.Graceful.Signal.Liveness.Runs.{CellStep, LockFits}

Moves-done :
    {A : Type 0} (k : ℕ) {c c' : Once A} → Moves k c c' → is_done c ≡ true → is_done c' ≡ true
Moves-done k (same c) e = e
Moves-done k (enters b) e = cc
Moves-done k (goes j b b') e = cc
Moves-done k (ends j b) e = cc

done-Runner :
    {A : Type 0} (P : Thread → Type 0) (ts : List Thread) (c : Once A)
    → is_done c ≡ true
    → Runner P ts c
done-Runner P ts fresh e = tt
done-Runner P ts (running i b) e = cc
done-Runner P ts done e = tt

-- `Here` says that the goroutine is at the `Do` of the cell.
pub CellStep-Runner :
    {A : Type 0} (P : Thread → Type 0) (ts : List Thread) (k : ℕ) (t : Thread) (r : Pc)
    (c c' : Once A)
    → get_elem? ts k ≡ some t
    → CellStep (P t) k c c'
    → (P t → is_done c ≡ false → r ≡ t.pc)
    → Runner P ts c
    → Runner P (set_thread ts k r) c'
CellStep-Runner P ts k t r c c' e (inl (p, m)) f run = elim (Bool-cases (is_done c)) [
  | inl d ↦ done-Runner P _ c' (Moves-done k m d)
  | inr d ↦
      set_thread-Runner P ts k t r c' e (λ q. subst (λ x. P (record t { pc = x })) (sym (f p d)) p)
        (Moves-Runner P ts k t m e p run)
]
CellStep-Runner P ts k t r c c' e (inr (n, s)) f run =
    set_thread-Runner P ts k t r c' e (λ p. absurd (n p)) (subst (Runner P ts) (sym s) run)

abbrev pub IsAt : Pc → Thread → Type 0
IsAt p t = t.pc ≡ p

abbrev pub IsClosing : Bool → Thread → Type 0
IsClosing force t = (t.pc ≡ at_close) × (t.force ≡ force)

pub record Places (y : System) : Type 0 where
  pub pre : Runner (IsAt at_pre) y.threads y.shared.pre_once
  pub close : Runner (IsClosing false) y.threads y.shared.close_once
  pub forced : Runner (IsClosing true) y.threads y.shared.force_once
  pub post : Runner (IsAt at_post) y.threads y.shared.post_once
  pub notify : Runner (IsAt at_notify) y.threads y.shared.notify_once
  pub lock : LockFits y.shared

pub stays_at :
    (force : Bool) (s : Shared) (p q : Pc) → p ≡ q → (next_pc force s q ≡ q) → next_pc force s p ≡ p
stays_at force s p q e h = subst (λ x. next_pc force s x ≡ x) (sym e) h
