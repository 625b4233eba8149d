-- ===== src/Graceful/Signal/Order.antt =====
-- graceful/signal.go: the order of a shutdown, and what a call of `shutdown` that has returned has
-- done.
use goji.Prelude.{ℕ, Bool, true, false, List, ◌≡◌, All, some, get_elem?, subst, ◌∙◌}
use goji.Graceful.Signal.{
  Hook, Event, Shared, new_shared, is_done, NotifyBody, Once, done, fresh, running,
}
use goji.Graceful.Signal.Threads.{Thread, returned, Action, perform_all, start}
use goji.Graceful.Signal.Invariant.{pre_calls, post_calls, IsOrdered, IsShutDown, NotifyState}
use goji.Graceful.Signal.Invariant.States.{PreState-done, PostState-calls}
use goji.Graceful.Signal.Invariant.Moves.{any_closed-IsShutDown}
use goji.Graceful.Signal.Invariant.Grows.{IsSame}
use goji.Graceful.Signal.Invariant.Passed.{Passed, HasPassed, get_elem?-All}
use goji.Graceful.Signal.Invariant.History.{SystemInv, perform_all-SystemInv, start-SystemInv}

start_all-SystemInv :
    (ls : List ℕ) (pre post : List Hook) (acts : List Action)
    → SystemInv ls pre post (perform_all acts (start ls pre post))
start_all-SystemInv ls pre post acts = perform_all-SystemInv acts _ (start-SystemInv ls pre post)

notify_done-closed :
    (d : Bool) (c : Once NotifyBody) (b : Bool) → is_done c ≡ true → NotifyState d c b → b ≡ true
notify_done-closed d fresh b e h = cc
notify_done-closed d (running i n) b e h = cc
notify_done-closed d done b e h = h.1

subst-IsOrdered :
    (ls : List ℕ) (pre post : List Hook) (s : Shared) (log : List Event)
    → IsSame (new_shared ls pre post) s
    → IsOrdered s.listeners s.prehooks s.posthooks log
    → IsOrdered ls pre post log
subst-IsOrdered ls pre post s log (l, (p, q)) h =
    subst (λ x. IsOrdered ls pre x log) q
      (subst (λ x. IsOrdered ls x s.posthooks log) p
        (subst (λ x. IsOrdered x s.prehooks s.posthooks log) l h))

-- For any listeners and hooks and any interleaving of calls of shutdown, graceful and forceful:
-- each hook of PreHook is called before all else, a listener is closed after all of these, its
-- Drain returns after a Close of it, a hook of PostHook is called when every listener is closed
-- and drained, wait is closed after all hooks, and never twice.
pub shutdown_order :
    (ls : List ℕ) (pre post : List Hook) (acts : List Action)
    → let s = (perform_all acts (start ls pre post)).shared in
      IsOrdered ls pre post s.log × (s.panicked ≡ false)
shutdown_order ls pre post acts =
    let y = perform_all acts (start ls pre post) in
    let inv = start_all-SystemInv ls pre post acts in
    (subst-IsOrdered ls pre post y.shared y.shared.log inv.same inv.shared.ordered, inv.shared.calm)

-- For any listeners and hooks and any interleaving of calls of shutdown, once one of the calls
-- has returned the hooks of PreHook and of PostHook have each been called once in the order of
-- their registration, every listener has been closed and drained, and wait is closed.
pub shutdown_returned :
    (ls : List ℕ) (pre post : List Hook) (acts : List Action) (i : ℕ) (t : Thread)
    → let y = perform_all acts (start ls pre post) in
      get_elem? y.threads i ≡ some t
      → t.pc ≡ returned
      → (pre_calls y.shared.log ≡ pre)
        × ((post_calls y.shared.log ≡ post)
            × (All (IsShutDown y.shared.log) ls × (y.shared.wait_closed ≡ true)))
shutdown_returned ls pre post acts i t e p =
    let y = perform_all acts (start ls pre post) in
    let inv = start_all-SystemInv ls pre post acts in
    let v = inv.shared in
    let passed =
      subst (Passed y.shared t.force) p
        (get_elem?-All (HasPassed y.shared) y.threads i t e inv.threads) in
    (
      PreState-done _ y.shared.pre_once _ v.pre passed.0.0.0 ∙ inv.same.1.0,
      (
        PostState-calls _ _ y.shared.post_once _ v.post passed.0.1 ∙ inv.same.1.1,
        (
          subst (All (IsShutDown y.shared.log)) inv.same.0
              (any_closed-IsShutDown t.force y.shared passed.0.0.1 v).1,
          notify_done-closed _ y.shared.notify_once _ passed.1 v.notify,
        ),
      ),
    )
