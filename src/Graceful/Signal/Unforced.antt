-- ===== src/Graceful/Signal/Unforced.antt =====
-- graceful/signal.go: runs without a forceful shutdown, and the rounds of `sigLoop`.
use goji.Prelude.{
  ℕ, zero, suc, Bool, true, false, Option, none, some, List, [], ◌∷◌, All, All-append, ◌==◌, ◌≡◌,
  refl, subst, get_elem?, if◌then◌else◌, sym,
}
use goji.Graceful.Signal.{
  Event, drained, Once, fresh, running, done, HookBody, locking, calling, CloseBody, storing,
  acquiring, waiting, NotifyBody, Hook, Job, Stage, to_close, to_drain, finished, Shared, pre_do,
  post_do, close_do, notify_do, all_finished, job_event,
}
use goji.Graceful.Signal.Threads.{
  Pc, at_pre, at_close, at_post, at_notify, returned, Thread, System, do_once, advance_thread,
  Action, advance, work, shutdown, perform, perform_all, start, set_thread, work_cell, work_log,
}
use goji.Graceful.Signal.Invariant.{occurs}
use goji.Graceful.Signal.Invariant.Passed.{get_elem?-All}

-- `DrainAll` of a listener.
abbrev pub is_drain_all : Event → Bool
is_drain_all (drained force l) = force
is_drain_all _ = false

abbrev pub NoForce : Shared → Type 0
NoForce s = (s.force_once ≡ fresh) × (occurs is_drain_all s.log ≡ false)

if-NoForce : (b : Bool) (x y : Shared) → NoForce x → NoForce y → NoForce (if b then x else y)
if-NoForce true x y hx hy = hx
if-NoForce false x y hx hy = hy

pre_do-NoForce :
    (i : ℕ) (sig : Option ℕ) (c : Once HookBody) (s : Shared)
    → NoForce s
    → NoForce (pre_do i sig c s)
pre_do-NoForce i sig fresh s h = h
pre_do-NoForce i sig (running j locking) s h =
    if-NoForce (i == j) _ s (if-NoForce s.locked s _ h h) h
pre_do-NoForce i sig (running j (calling [])) s h = if-NoForce (i == j) _ s h h
pre_do-NoForce i sig (running j (calling (k ∷ ks))) s h = if-NoForce (i == j) _ s h h
pre_do-NoForce i sig done s h = h

post_do-NoForce :
    (i : ℕ) (sig : Option ℕ) (c : Once HookBody) (s : Shared)
    → NoForce s
    → NoForce (post_do i sig c s)
post_do-NoForce i sig fresh s h = h
post_do-NoForce i sig (running j locking) s h =
    if-NoForce (i == j) _ s (if-NoForce s.locked s _ h h) h
post_do-NoForce i sig (running j (calling [])) s h = if-NoForce (i == j) _ s h h
post_do-NoForce i sig (running j (calling (k ∷ ks))) s h = if-NoForce (i == j) _ s h h
post_do-NoForce i sig done s h = h

notify_do-NoForce :
    (i : ℕ) (c : Once NotifyBody) (s : Shared) → NoForce s → NoForce (notify_do i c s)
notify_do-NoForce i fresh s h = h
notify_do-NoForce i (running j b) s h = if-NoForce (i == j) _ s h h
notify_do-NoForce i done s h = h

close_do-NoForce :
    (i : ℕ) (c : Once CloseBody) (s : Shared) → NoForce s → NoForce (close_do i false c s)
close_do-NoForce i fresh s h = h
close_do-NoForce i (running j storing) s h = if-NoForce (i == j) _ s h h
close_do-NoForce i (running j acquiring) s h =
    if-NoForce (i == j) _ s (if-NoForce s.locked s _ h h) h
close_do-NoForce i (running j (waiting js)) s h =
    if-NoForce (i == j) _ s (if-NoForce (all_finished js) _ s h h) h
close_do-NoForce i done s h = h

do_once-NoForce :
    (i : ℕ) (sig : Option ℕ) (p : Pc) (s : Shared) → NoForce s → NoForce (do_once i false sig p s)
do_once-NoForce i sig at_pre s h = pre_do-NoForce i sig s.pre_once s h
do_once-NoForce i sig at_close s h = close_do-NoForce i s.close_once s h
do_once-NoForce i sig at_post s h = post_do-NoForce i sig s.post_once s h
do_once-NoForce i sig at_notify s h = notify_do-NoForce i s.notify_once s h
do_once-NoForce i sig returned s h = h

job_event-drains :
    (t : Stage) (l : ℕ) (log : List Event)
    → occurs is_drain_all log ≡ false
    → occurs is_drain_all (job_event false t l log) ≡ false
job_event-drains to_close l log h = h
job_event-drains to_drain l log h = h
job_event-drains finished l log h = h

work_log-drains :
    (js : List Job) (k : ℕ) (log : List Event)
    → occurs is_drain_all log ≡ false
    → occurs is_drain_all (work_log false js k log) ≡ false
work_log-drains [] k log h = h
work_log-drains (j ∷ js) zero log h = job_event-drains j.stage j.listener log h
work_log-drains (j ∷ js) (suc k) log h = work_log-drains js k log h

work_cell-NoForce :
    (k : ℕ) (c : Once CloseBody) (s : Shared) → NoForce s → NoForce (work_cell false k c s)
work_cell-NoForce k fresh s h = h
work_cell-NoForce k (running i storing) s h = h
work_cell-NoForce k (running i acquiring) s h = h
work_cell-NoForce k (running i (waiting js)) s h = (h.0, work_log-drains js k s.log h.1)
work_cell-NoForce k done s h = h

abbrev IsUnforced : Thread → Type 0
IsUnforced t = t.force ≡ false

record Quiet (y : System) : Type 0 where
  shared : NoForce y.shared
  threads : All IsUnforced y.threads

set_thread-IsUnforced :
    (ts : List Thread) (i : ℕ) (p : Pc) → All IsUnforced ts → All IsUnforced (set_thread ts i p)
set_thread-IsUnforced [] i p h = h
set_thread-IsUnforced (t ∷ ts) zero p h = h
set_thread-IsUnforced (t ∷ ts) (suc i) p h = (h.0, set_thread-IsUnforced ts i p h.1)

advance-Quiet :
    (i : ℕ) (o : Option Thread) (y : System)
    → get_elem? y.threads i ≡ o
    → Quiet y
    → Quiet (advance_thread i o y)
advance-Quiet i none y e q = q
advance-Quiet i (some t) y e q = record {
  shared =
      subst (λ f. NoForce (do_once i f t.sig t.pc y.shared))
        (sym (get_elem?-All IsUnforced y.threads i t e q.threads))
        (do_once-NoForce i t.sig t.pc y.shared q.shared);
  threads = set_thread-IsUnforced y.threads i _ q.threads;
}

-- `ShutdownNow`, a double kick or a timeout is no such call.
abbrev pub IsGraceful : Action → Type 0
IsGraceful (shutdown force sig) = force ≡ false
IsGraceful _ = Unit

perform-Quiet : (a : Action) (y : System) → IsGraceful a → Quiet y → Quiet (perform a y)
perform-Quiet (advance i) y g q = advance-Quiet i (get_elem? y.threads i) y refl q
perform-Quiet (work false k) y g q = record {
  shared = work_cell-NoForce k y.shared.close_once y.shared q.shared;
  threads = q.threads;
}
perform-Quiet (work true k) y g q = record {
  shared = subst (λ c. NoForce (work_cell true k c y.shared)) (sym q.shared.0) q.shared;
  threads = q.threads;
}
perform-Quiet (shutdown force sig) y g q = record {
  shared = q.shared;
  threads = All-append IsUnforced y.threads _ q.threads (g, tt);
}

perform_all-Quiet :
    (acts : List Action) (y : System) → All IsGraceful acts → Quiet y → Quiet (perform_all acts y)
unfolding perform_all
perform_all-Quiet [] y g q = q
perform_all-Quiet (a ∷ acts) y g q =
    perform_all-Quiet acts (perform a y) g.1 (perform-Quiet a y g.0 q)

-- Where no call of shutdown is forceful, DrainAll is called on no listener, for any listeners and
-- hooks and any interleaving.
pub never_forced :
    (ls : List ℕ) (pre post : List Hook) (acts : List Action)
    → All IsGraceful acts
    → occurs is_drain_all (perform_all acts (start ls pre post)).shared.log ≡ false
never_forced ls pre post acts g =
    (perform_all-Quiet acts (start ls pre post) g
      (record { shared = (refl, refl); threads = tt })).shared.1
