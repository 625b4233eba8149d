-- ===== src/Graceful/Signal/Invariant/Emits.antt =====
-- graceful/signal.go: the log after a step of the goroutine for a listener.
use goji.Prelude.{
  ℕ, zero, suc, Bool, true, List, [], ◌∷◌, ◌++◌, All, All-map, ◌≡◌, refl, ap, ◌∙◌, arith,
}
use goji.Graceful.Signal.{
  Once, fresh, running, done, Hook, Event, closed, drained, HookBody, locking, calling, Stage,
  to_close, to_drain, finished, Job, CloseBody, next_stage, job_event,
}
use goji.Graceful.Signal.Threads.{work_jobs, work_log}
use goji.Graceful.Signal.Invariant.{
  pre_calls, post_calls, is_close, occurs, IsOrdered, StageState, JobState, listeners_of,
  CloseState, PostState,
}
use goji.Graceful.Signal.Invariant.States.{occurs-cons, StageState-cons, CloseState-cons}

-- What one step of the goroutine for a listener adds to the log.
pub data Emits (log : List Event) : List Event → Type 0 where
  nothing : Emits log log
  emits_closed : (l : ℕ) → Emits log (closed l ∷ log)
  emits_drained :
      (force : Bool) (l : ℕ) → occurs (is_close l) log ≡ true → Emits log (drained force l ∷ log)

job-Emits :
    (force : Bool) (t : Stage) (l : ℕ) (log : List Event)
    → StageState l t log
    → Emits log (job_event force t l log)
job-Emits force to_close l log h = emits_closed l
job-Emits force to_drain l log h = emits_drained force l h
job-Emits force finished l log h = nothing

pub work-Emits :
    (force : Bool) (js : List Job) (k : ℕ) (log : List Event)
    → All (JobState log) js
    → Emits log (work_log force js k log)
work-Emits force [] k log h = nothing
work-Emits force (j ∷ js) zero log h = job-Emits force j.stage j.listener log h.0
work-Emits force (j ∷ js) (suc k) log h = work-Emits force js k log h.1

module _ {log : List Event} where
  pub Emits-StageState :
      {new : List Event}
      → Emits log new
      → (l : ℕ) (t : Stage) → StageState l t log
      → StageState l t new
  Emits-StageState nothing l t h = h
  Emits-StageState (emits_closed k) l t h = StageState-cons l t _ log h
  Emits-StageState (emits_drained force k e) l t h = StageState-cons l t _ log h

  pub Emits-CloseState :
      {new : List Event}
      → Emits log new
      → (ls : List ℕ) (d : Bool) (c : Once CloseBody) → CloseState ls d c log
      → CloseState ls d c new
  Emits-CloseState nothing ls d c h = h
  Emits-CloseState (emits_closed k) ls d c h = CloseState-cons ls d c _ log h
  Emits-CloseState (emits_drained force k e) ls d c h = CloseState-cons ls d c _ log h

  pub Emits-pre_calls : {new : List Event} → Emits log new → pre_calls new ≡ pre_calls log
  Emits-pre_calls nothing = refl
  Emits-pre_calls (emits_closed k) = refl
  Emits-pre_calls (emits_drained force k e) = refl

  pub Emits-post_calls : {new : List Event} → Emits log new → post_calls new ≡ post_calls log
  Emits-post_calls nothing = refl
  Emits-post_calls (emits_closed k) = refl
  Emits-post_calls (emits_drained force k e) = refl

  pub Emits-IsOrdered :
      {new : List Event}
      → Emits log new
      → (ls : List ℕ) (pre post : List Hook) → pre_calls log ≡ pre
      → IsOrdered ls pre post log
      → IsOrdered ls pre post new
  Emits-IsOrdered nothing ls pre post e h = h
  Emits-IsOrdered (emits_closed k) ls pre post e h = (e, h)
  Emits-IsOrdered (emits_drained force k c) ls pre post e h = ((e, c), h)

pub PostState-of_calls :
    (hooks : List Hook) (d : Bool) (c : Once HookBody) (log new : List Event)
    → post_calls new ≡ post_calls log
    → PostState hooks d c log
    → PostState hooks d c new
PostState-of_calls hooks d fresh log new e p = e ∙ p
PostState-of_calls hooks d (running i locking) log new e p = (p.0, e ∙ p.1)
PostState-of_calls hooks d (running i (calling hs)) log new e p = (p.0, ap (λ l. l ++ hs) e ∙ p.1)
PostState-of_calls hooks d done log new e p = (p.0, e ∙ p.1)

-- The goroutine that made the step is at its next stage.
job_event-StageState :
    (force : Bool) (t : Stage) (l : ℕ) (log : List Event)
    → StageState l t log
    → StageState l (next_stage t) (job_event force t l log)
job_event-StageState force to_close l log h = ground arith
job_event-StageState force to_drain l log h =
    (occurs-cons (is_close l) (drained force l) log h, ground arith)
job_event-StageState force finished l log h = h

pub work_jobs-JobState :
    (force : Bool) (js : List Job) (k : ℕ) (log : List Event)
    → All (JobState log) js
    → All (JobState (work_log force js k log)) (work_jobs js k)
work_jobs-JobState force [] k log h = tt
work_jobs-JobState force (j ∷ js) zero log h =
    let emitted = job-Emits force j.stage j.listener log h.0 in
    (
      job_event-StageState force j.stage j.listener log h.0,
      All-map (λ i. Emits-StageState emitted i.listener i.stage) js h.1,
    )
work_jobs-JobState force (j ∷ js) (suc k) log h = (
  Emits-StageState (work-Emits force js k log h.1) j.listener j.stage h.0,
  work_jobs-JobState force js k log h.1,
)

pub work_jobs-listeners : (js : List Job) (k : ℕ) → listeners_of (work_jobs js k) ≡ listeners_of js
work_jobs-listeners [] k = refl
work_jobs-listeners (j ∷ js) zero = refl
work_jobs-listeners (j ∷ js) (suc k) = ap (◌∷◌ j.listener) (work_jobs-listeners js k)
