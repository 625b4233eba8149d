-- ===== src/Graceful/Signal/Invariant.antt =====
-- graceful/signal.go: what holds of the package's state while calls of `shutdown` run.
pub mod States
pub mod Emits
pub mod Moves
pub mod Closing
pub mod Grows
pub mod Passed
pub mod History
use goji.Prelude.{ℕ, Bool, true, false, ◌||◌, List, [], ◌∷◌, ◌++◌, map, ◌==◌, All, ◌≡◌}
use goji.Graceful.Signal.{
  Once, fresh, running, done, is_done, Hook, Event, called_pre, closed, drained, called_post,
  notified, HookBody, locking, calling, Stage, to_close, to_drain, finished, Job, CloseBody,
  waiting, NotifyBody, Shared,
}

-- The hooks that the log names, in the order of the calls.
abbrev pub pre_calls : List Event → List Hook
pre_calls [] = []
pre_calls (called_pre h sig ∷ log) = pre_calls log ++ h ∷ []
pre_calls (_ ∷ log) = pre_calls log

abbrev pub post_calls : List Event → List Hook
post_calls [] = []
post_calls (called_post h sig ∷ log) = post_calls log ++ h ∷ []
post_calls (_ ∷ log) = post_calls log

abbrev pub is_close : ℕ → Event → Bool
is_close l (closed k) = k == l
is_close l _ = false

abbrev pub is_drain : ℕ → Event → Bool
is_drain l (drained force k) = k == l
is_drain l _ = false

abbrev pub occurs : (Event → Bool) → List Event → Bool
occurs p [] = false
occurs p (e ∷ log) = p e || occurs p log

abbrev pub is_pre : Event → Bool
is_pre (called_pre h sig) = true
is_pre _ = false

abbrev pub OnlyPre : List Event → Type 0
OnlyPre = All (λ e. is_pre e ≡ true)

abbrev pub IsShutDown : List Event → ℕ → Type 0
IsShutDown log l = (occurs (is_close l) log ≡ true) × (occurs (is_drain l) log ≡ true)

-- What the code promises of the moment of an event, `older` being the log at that moment: a hook of
-- `PreHook` is before all else, a listener is closed after those hooks, its `Drain` returns after
-- its `Close`, a hook of `PostHook` is called after all listeners are closed and drained, and
-- `wait` is closed once, after all hooks.
abbrev pub Follows : List ℕ → List Hook → List Hook → Event → List Event → Type 0
Follows ls pre post (called_pre h sig) older = OnlyPre older
Follows ls pre post (closed l) older = pre_calls older ≡ pre
Follows ls pre post (drained force l) older =
    (pre_calls older ≡ pre) × (occurs (is_close l) older ≡ true)
Follows ls pre post (called_post h sig) older = (pre_calls older ≡ pre) × All (IsShutDown older) ls
Follows ls pre post notified older =
    ((pre_calls older ≡ pre) × (post_calls older ≡ post)) × All (IsShutDown older) ls

abbrev pub IsOrdered : List ℕ → List Hook → List Hook → List Event → Type 0
IsOrdered ls pre post [] = Unit
IsOrdered ls pre post (e ∷ older) = Follows ls pre post e older × IsOrdered ls pre post older

abbrev pub PreState : List Hook → Once HookBody → List Event → Type 0
PreState hooks fresh log = log ≡ []
PreState hooks (running i locking) log = log ≡ []
PreState hooks (running i (calling hs)) log = (pre_calls log ++ hs ≡ hooks) × OnlyPre log
PreState hooks done log = pre_calls log ≡ hooks

abbrev pub StageState : ℕ → Stage → List Event → Type 0
StageState l to_close log = Unit
StageState l to_drain log = occurs (is_close l) log ≡ true
StageState l finished log = IsShutDown log l

abbrev pub JobState : List Event → Job → Type 0
JobState log j = StageState j.listener j.stage log

abbrev pub listeners_of : List Job → List ℕ
listeners_of = map (λ j. j.listener)

abbrev pub CloseState : List ℕ → Bool → Once CloseBody → List Event → Type 0
CloseState ls pre_done fresh log = Unit
CloseState ls pre_done (running i (waiting js)) log =
    (pre_done ≡ true) × ((listeners_of js ≡ ls) × All (JobState log) js)
CloseState ls pre_done (running i _) log = pre_done ≡ true
CloseState ls pre_done done log = (pre_done ≡ true) × All (IsShutDown log) ls

abbrev pub PostState : List Hook → Bool → Once HookBody → List Event → Type 0
PostState hooks ready fresh log = post_calls log ≡ []
PostState hooks ready (running i locking) log = (ready ≡ true) × (post_calls log ≡ [])
PostState hooks ready (running i (calling hs)) log = (ready ≡ true) × (post_calls log ++ hs ≡ hooks)
PostState hooks ready done log = (ready ≡ true) × (post_calls log ≡ hooks)

abbrev pub NotifyState : Bool → Once NotifyBody → Bool → Type 0
NotifyState ready fresh is_closed = is_closed ≡ false
NotifyState ready (running i b) is_closed = (ready ≡ true) × (is_closed ≡ false)
NotifyState ready done is_closed = (ready ≡ true) × (is_closed ≡ true)

abbrev pub any_closed : Shared → Bool
any_closed s = is_done s.close_once || is_done s.force_once

pub record Inv (s : Shared) : Type 0 where
  pub pre : PreState s.prehooks s.pre_once s.log
  pub close : CloseState s.listeners (is_done s.pre_once) s.close_once s.log
  pub force : CloseState s.listeners (is_done s.pre_once) s.force_once s.log
  pub post : PostState s.posthooks (any_closed s) s.post_once s.log
  pub notify : NotifyState (is_done s.post_once) s.notify_once s.wait_closed
  pub calm : s.panicked ≡ false
  pub ordered : IsOrdered s.listeners s.prehooks s.posthooks s.log
