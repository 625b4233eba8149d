-- ===== src/Graceful/Signal/Invariant/Closing.antt =====
-- graceful/signal.go: the steps of `closeListeners` keep the invariant.
use goji.Prelude.{
  ℕ, Bool, true, false, List, [], ◌∷◌, map, ◌==◌, All, ◌≡◌, refl, ap, subst, ◌∙◌, inl, inr, arith,
  Bool-cases,
}
use goji.Graceful.Signal.{
  Once, fresh, running, done, is_done, Event, Stage, to_close, to_drain, finished, Job, CloseBody,
  storing, acquiring, waiting, Shared, closing_once, set_closing_once, close_body, close_do,
  all_finished, is_finished, new_job,
}
use goji.Graceful.Signal.Threads.{work_cell, work_jobs, work_log}
use goji.Graceful.Signal.Invariant.{StageState, JobState, IsShutDown, listeners_of, CloseState, Inv}
use goji.Graceful.Signal.Invariant.States.{PostState-mono, PreState-done, PreState-of_calls}
use goji.Graceful.Signal.Invariant.Emits.{
  PostState-of_calls, Emits, work-Emits, Emits-CloseState, Emits-pre_calls, Emits-post_calls,
  Emits-IsOrdered, work_jobs-JobState, work_jobs-listeners,
}
use goji.Graceful.Signal.Invariant.Moves.{if-Inv}

closing-CloseState :
    (force : Bool) (s : Shared)
    → Inv s
    → CloseState s.listeners (is_done s.pre_once) (closing_once force s) s.log
closing-CloseState true s v = v.force
closing-CloseState false s v = v.close

-- The body of one of the two has not ended, and goes on.
replace-Inv :
    (force : Bool) (c : Once CloseBody) (s : Shared)
    → is_done (closing_once force s) ≡ false
    → CloseState s.listeners (is_done s.pre_once) c s.log
    → Inv s
    → Inv (set_closing_once force c s)
replace-Inv true c s e h v = record {
  pre = v.pre;
  close = v.close;
  force = h;
  post = PostState-mono _ _ _ _ _ (λ d. ground arith) v.post;
  notify = v.notify;
  calm = v.calm;
  ordered = v.ordered;
}
replace-Inv false c s e h v = record {
  pre = v.pre;
  close = h;
  force = v.force;
  post = PostState-mono _ _ _ _ _ (λ d. ground arith) v.post;
  notify = v.notify;
  calm = v.calm;
  ordered = v.ordered;
}

closing-Inv : (s : Shared) → Inv s → Inv (record s { closing = true })
closing-Inv s v = record {
  pre = v.pre;
  close = v.close;
  force = v.force;
  post = v.post;
  notify = v.notify;
  calm = v.calm;
  ordered = v.ordered;
}

new_jobs-JobState : (ls : List ℕ) (log : List Event) → All (JobState log) (map new_job ls)
new_jobs-JobState [] log = tt
new_jobs-JobState (l ∷ ls) log = (tt, new_jobs-JobState ls log)

new_jobs-listeners : (ls : List ℕ) → listeners_of (map new_job ls) ≡ ls
new_jobs-listeners [] = refl
new_jobs-listeners (l ∷ ls) = ap (◌∷◌ l) (new_jobs-listeners ls)

finished-IsShutDown :
    (l : ℕ) (t : Stage) (log : List Event)
    → is_finished t ≡ true
    → StageState l t log
    → IsShutDown log l
finished-IsShutDown l to_close log e h = cc
finished-IsShutDown l to_drain log e h = cc
finished-IsShutDown l finished log e h = h

all_finished-IsShutDown :
    (js : List Job) (log : List Event)
    → all_finished js ≡ true
    → All (JobState log) js
    → All (IsShutDown log) (listeners_of js)
all_finished-IsShutDown [] log e h = tt
all_finished-IsShutDown (j ∷ js) log e h = (
  finished-IsShutDown j.listener j.stage log (ground arith) h.0,
  all_finished-IsShutDown js log (ground arith) h.1,
)

close_body-Inv :
    (i : ℕ) (force : Bool) (b : CloseBody) (s : Shared)
    → is_done (closing_once force s) ≡ false
    → CloseState s.listeners (is_done s.pre_once) (running i b) s.log
    → is_done s.pre_once ≡ true
    → Inv s
    → Inv (close_body i force b s)
close_body-Inv i true storing s e h p v =
    replace-Inv true (running i acquiring) (record s { closing = true }) e p (closing-Inv s v)
close_body-Inv i false storing s e h p v =
    replace-Inv false (running i acquiring) (record s { closing = true }) e p (closing-Inv s v)
close_body-Inv i force acquiring s e h p v = if-Inv s.locked _ _ v (
    replace-Inv force (running i (waiting (map new_job s.listeners))) s e
      (p, (new_jobs-listeners s.listeners, new_jobs-JobState s.listeners s.log)) v)
close_body-Inv i force (waiting js) s e h p v = elim (Bool-cases (all_finished js)) [
  | inl f ↦ rw f (
      replace-Inv force done s e
        (p, subst (All (IsShutDown s.log)) h.1.0 (all_finished-IsShutDown js s.log f h.1.1)) v)
  | inr f ↦ rw f v
]

close_do-Inv :
    (i : ℕ) (force : Bool) (c : Once CloseBody) (s : Shared)
    → closing_once force s ≡ c
    → CloseState s.listeners (is_done s.pre_once) c s.log
    → is_done s.pre_once ≡ true
    → Inv s
    → Inv (close_do i force c s)
close_do-Inv i force fresh s e h p v = replace-Inv force (running i storing) s (ap is_done e) p v
close_do-Inv i force (running j b) s e h p v = elim (Bool-cases (i == j)) [
  | inl eq ↦
      let same : i ≡ j = ground arith in
      rw eq (rw same (close_body-Inv j force b s (ap is_done e) h p v))
  | inr ne ↦ rw ne v
]
close_do-Inv i force done s e h p v = v

pub close_step-Inv :
    (i : ℕ) (force : Bool) (s : Shared)
    → is_done s.pre_once ≡ true
    → Inv s
    → Inv (close_do i force (closing_once force s) s)
close_step-Inv i force s p v =
    close_do-Inv i force (closing_once force s) s refl (closing-CloseState force s v) p v

-- The log has grown by a step of a goroutine for a listener.
Emits-Inv :
    (s : Shared) (new : List Event)
    → Emits s.log new
    → is_done s.pre_once ≡ true
    → Inv s
    → Inv (record s { log = new })
Emits-Inv s new g p v =
    let calls = PreState-done s.prehooks s.pre_once s.log v.pre p in
    record {
      pre = PreState-of_calls s.prehooks s.pre_once new p (Emits-pre_calls g ∙ calls);
      close = Emits-CloseState g _ _ _ v.close;
      force = Emits-CloseState g _ _ _ v.force;
      post = PostState-of_calls _ _ _ _ _ (Emits-post_calls g) v.post;
      notify = v.notify;
      calm = v.calm;
      ordered = Emits-IsOrdered g _ _ _ calls v.ordered;
    }

emits-not_done :
    (force : Bool) (s : Shared) (new : List Event) (i : ℕ) (b : CloseBody)
    → closing_once force s ≡ running i b
    → is_done (closing_once force (record s { log = new })) ≡ false
emits-not_done true s new i b e = ap is_done e
emits-not_done false s new i b e = ap is_done e

work_cell-Inv :
    (force : Bool) (k : ℕ) (c : Once CloseBody) (s : Shared)
    → closing_once force s ≡ c
    → CloseState s.listeners (is_done s.pre_once) c s.log
    → Inv s
    → Inv (work_cell force k c s)
work_cell-Inv force k fresh s e h v = v
work_cell-Inv force k (running i storing) s e h v = v
work_cell-Inv force k (running i acquiring) s e h v = v
work_cell-Inv force k (running i (waiting js)) s e h v =
    let new = work_log force js k s.log in
    replace-Inv force (running i (waiting (work_jobs js k))) (record s { log = new })
      (emits-not_done force s new i (waiting js) e)
      (h.0, (work_jobs-listeners js k ∙ h.1.0, work_jobs-JobState force js k s.log h.1.1))
      (Emits-Inv s new (work-Emits force js k s.log h.1.1) h.0 v)
work_cell-Inv force k done s e h v = v

pub work-Inv :
    (force : Bool) (k : ℕ) (s : Shared) → Inv s → Inv (work_cell force k (closing_once force s) s)
work-Inv force k s v =
    work_cell-Inv force k (closing_once force s) s refl (closing-CloseState force s v) v
