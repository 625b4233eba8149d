-- ===== src/Graceful/Signal/Tests.antt =====
-- graceful/signal.go: a graceful and a forceful shutdown of one listener that overtake each other.
use goji.Prelude.{ℕ, zero, suc, true, false, none, some, List, [], ◌∷◌, ◌++◌, ◌≡◌, refl, All, arith}
use goji.Graceful.Signal.{
  Hook, plain, with_signal, called_pre, closed, drained, called_post, notified,
}
use goji.Graceful.Signal.Threads.{Action, advance, work, shutdown, perform_all, start, returned}
use goji.Graceful.Signal.Invariant.{IsOrdered, pre_calls, post_calls, IsShutDown, occurs}
use goji.Graceful.Signal.Order.{shutdown_order, shutdown_returned}
use goji.Graceful.Signal.Unforced.{never_forced, IsGraceful, is_drain_all}
use goji.Graceful.Signal.Liveness.Advance.{IsStep}
use goji.Graceful.Signal.Liveness.{HasReturned, shutdown_finishes}
use goji.Graceful.Signal.Loop.{
  Config, new_config, sig_loop, starts_at, double_kick_window, set_timeout,
}
use goji.Graceful.Signal.Rounds.{sig_loop_lem, expected}
use goji.Prelude.Int.{pos}

abbrev advances : ℕ → ℕ → List Action
advances zero i = []
advances (suc n) i = advance i ∷ advances n i

abbrev hooks_before : List Hook
hooks_before = plain 1 ∷ with_signal 2 ∷ []

abbrev hooks_after : List Hook
hooks_after = with_signal 3 ∷ []

-- One call alone.
abbrev alone : List Action
alone =
    shutdown false (some 2) ∷ advances 9 0 ++ (work false 0 ∷ work false 0 ∷ []) ++ advances 10 0

-- A second call that forces it waits for the hooks of the first and ends before it.
abbrev forced : List Action
forced =
    shutdown false (some 2) ∷ shutdown true none ∷ advances 4 0
    ++ advances 3 1
    ++ advances 5 0
    ++ advances 5 1
    ++ (work true 0 ∷ work false 0 ∷ work true 0 ∷ [])
    ++ advances 10 1

alone_log :
    (perform_all alone (start (7 ∷ []) hooks_before hooks_after)).shared.log
    ≡ notified
      ∷ called_post (with_signal 3) (some 2)
      ∷ drained false 7
      ∷ closed 7
      ∷ called_pre (with_signal 2) (some 2)
      ∷ called_pre (plain 1) none
      ∷ []
unfolding perform_all
alone_log = refl

forced_log :
    (perform_all forced (start (7 ∷ []) hooks_before hooks_after)).shared.log
    ≡ notified
      ∷ called_post (with_signal 3) none
      ∷ drained true 7
      ∷ closed 7
      ∷ closed 7
      ∷ called_pre (with_signal 2) (some 2)
      ∷ called_pre (plain 1) none
      ∷ []
unfolding perform_all
forced_log = refl

shutdown_order_example :
    let s = (perform_all forced (start (7 ∷ []) hooks_before hooks_after)).shared in
    IsOrdered (7 ∷ []) hooks_before hooks_after s.log × (s.panicked ≡ false)
shutdown_order_example = shutdown_order (7 ∷ []) hooks_before hooks_after forced

shutdown_returned_example :
    let y = perform_all forced (start (7 ∷ []) hooks_before hooks_after) in
    (pre_calls y.shared.log ≡ hooks_before)
    × ((post_calls y.shared.log ≡ hooks_after)
        × (All (IsShutDown y.shared.log) (7 ∷ []) × (y.shared.wait_closed ≡ true)))
unfolding perform_all
shutdown_returned_example =
    shutdown_returned (7 ∷ []) hooks_before hooks_after forced 1
      (record { force = true; sig = none; pc = returned }) refl refl

-- In the middle of the hooks, which one of two calls runs.
abbrev halfway : List Action
halfway = shutdown false (some 2) ∷ shutdown true none ∷ advance 0 ∷ advance 1 ∷ advances 2 0

shutdown_finishes_example :
    let y = perform_all halfway (start (7 ∷ []) hooks_before hooks_after) in
    (more : List Action) × (All IsStep more × All HasReturned (perform_all more y).threads)
shutdown_finishes_example = shutdown_finishes (7 ∷ []) hooks_before hooks_after halfway

alone-IsGraceful : All IsGraceful alone
alone-IsGraceful = ground arith

never_forced_example :
    occurs is_drain_all (perform_all alone (start (7 ∷ []) hooks_before hooks_after)).shared.log
    ≡ false
never_forced_example = never_forced (7 ∷ []) hooks_before hooks_after alone alone-IsGraceful

abbrev kicks : Config
kicks = set_timeout (pos 50) (double_kick_window (pos 10) new_config)

-- Interrupts at the times 100, 105 and 200.
started :
    sig_loop kicks none ((2, 100) ∷ (2, 105) ∷ (2, 200) ∷ [])
    ≡ starts_at 150 true 2
      ∷ starts_at 100 false 2
      ∷ starts_at 105 true 2
      ∷ starts_at 250 true 2
      ∷ starts_at 200 false 2
      ∷ []
unfolding sig_loop
started = refl

sig_loop_lem_example :
    sig_loop kicks none ((2, 100) ∷ (2, 105) ∷ (2, 200) ∷ [])
    ≡ sig_loop kicks none ((2, 100) ∷ [])
      ++ (expected kicks 5 2 105 ++ sig_loop kicks (some 105) ((2, 200) ∷ []))
sig_loop_lem_example = sig_loop_lem kicks none [] 2 100 2 105 ((2, 200) ∷ [])
