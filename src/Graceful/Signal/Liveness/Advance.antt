-- ===== src/Graceful/Signal/Liveness/Advance.antt =====
-- graceful/signal.go: the steps that lower the number of steps left.
use goji.Prelude.{
  ℕ, suc, ◌+◌, ◌≤◌, Bool, true, false, some, ◌≡◌, sym, subst, arith, get_elem?, if◌then◌else◌,
}
use goji.Graceful.Signal.{is_done, Shared, closing_once}
use goji.Graceful.Signal.Threads.{
  Pc, at_pre, at_close, at_post, at_notify, returned, Thread, next_pc, do_once, System, Action,
  advance, shutdown, perform,
}
use goji.Graceful.Signal.Liveness.Cost.{
  cells_cost, cost, pc_cost, threads_cost-set, HookGoes, pre_do-cost, post_do-cost, NotifyGoes,
  notify_do-cost, CloseGoes, close_do-cost,
}

-- A step of a goroutine that was started before.
abbrev pub IsStep : Action → Type 0
IsStep (shutdown force sig) = true ≡ false
IsStep _ = Unit

abbrev pub Progress : System → Type 0
Progress y = (a : Action) × (IsStep a × (suc (cost (perform a y)) ≤ cost y))

if_done-le :
    (b : Bool) (p q : Pc) → pc_cost q ≤ pc_cost p → pc_cost (if b then q else p) ≤ pc_cost p
if_done-le true p q h = h
if_done-le false p q h = omega arith

next_pc-le : (force : Bool) (s : Shared) (p : Pc) → pc_cost (next_pc force s p) ≤ pc_cost p
next_pc-le force s at_pre = if_done-le (is_done s.pre_once) _ _ (omega arith)
next_pc-le force s at_close = if_done-le (is_done (closing_once force s)) _ _ (omega arith)
next_pc-le force s at_post = if_done-le (is_done s.post_once) _ _ (omega arith)
next_pc-le force s at_notify = if_done-le (is_done s.notify_once) _ _ (omega arith)
next_pc-le force s returned = omega arith

module _ (y : System) (i : ℕ) (t : Thread) (e : get_elem? y.threads i ≡ some t) where
  advance-cost :
      suc (
          cells_cost (do_once i t.force t.sig t.pc y.shared)
          + pc_cost (next_pc t.force y.shared t.pc))
        ≤ cells_cost y.shared + pc_cost t.pc
      → Progress y
  advance-cost h = (
    advance i,
    (tt, rw e (omega (arith, h, threads_cost-set y.threads i t (next_pc t.force y.shared t.pc) e))),
  )

  -- The body goes on.
  body-Progress :
      suc (cells_cost (do_once i t.force t.sig t.pc y.shared)) ≤ cells_cost y.shared → Progress y
  body-Progress h = advance-cost (omega (arith, h, next_pc-le t.force y.shared t.pc))

  pub pre-Progress : t.pc ≡ at_pre → HookGoes i y.shared.locked y.shared.pre_once → Progress y
  pre-Progress p g = body-Progress (
      subst (λ q. suc (cells_cost (do_once i t.force t.sig q y.shared)) ≤ cells_cost y.shared)
        (sym p) (pre_do-cost i t.sig y.shared.pre_once y.shared g))

  pub post-Progress : t.pc ≡ at_post → HookGoes i y.shared.locked y.shared.post_once → Progress y
  post-Progress p g = body-Progress (
      subst (λ q. suc (cells_cost (do_once i t.force t.sig q y.shared)) ≤ cells_cost y.shared)
        (sym p) (post_do-cost i t.sig y.shared.post_once y.shared g))

  pub notify-Progress : t.pc ≡ at_notify → NotifyGoes i y.shared.notify_once → Progress y
  notify-Progress p g = body-Progress (
      subst (λ q. suc (cells_cost (do_once i t.force t.sig q y.shared)) ≤ cells_cost y.shared)
        (sym p) (notify_do-cost i y.shared.notify_once y.shared g))

  close_at :
      (force : Bool)
      → CloseGoes i y.shared.locked (closing_once force y.shared)
      → suc (cells_cost (do_once i force t.sig at_close y.shared)) ≤ cells_cost y.shared
  close_at true g = close_do-cost i true y.shared.force_once y.shared g
  close_at false g = close_do-cost i false y.shared.close_once y.shared g

  pub close-Progress :
      t.pc ≡ at_close → CloseGoes i y.shared.locked (closing_once t.force y.shared) → Progress y
  close-Progress p g = body-Progress (
      subst (λ q. suc (cells_cost (do_once i t.force t.sig q y.shared)) ≤ cells_cost y.shared)
        (sym p) (close_at t.force g))

  -- The `Do` returns at once.
  pub over-Progress :
      (p : Pc)
      → t.pc ≡ p
      → suc (cells_cost (do_once i t.force t.sig p y.shared) + pc_cost (next_pc t.force y.shared p))
        ≤ cells_cost y.shared + pc_cost p
      → Progress y
  over-Progress p q h = advance-cost (
      subst
        (λ r.
          suc
            (cells_cost (do_once i t.force t.sig r y.shared) + pc_cost (next_pc t.force y.shared r))
          ≤ cells_cost y.shared + pc_cost r)
        (sym q) h)
