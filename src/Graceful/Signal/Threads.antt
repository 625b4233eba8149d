-- ===== src/Graceful/Signal/Threads.antt =====
-- graceful/signal.go: the goroutines in `shutdown` and in `closeListeners`, and the actions that
-- interleave them. An action of a goroutine that cannot go on leaves the state as it is.
use goji.Prelude.{
  ℕ, zero, suc, Bool, Option, none, some, List, [], ◌∷◌, ◌++◌, if◌then◌else◌, get_elem?,
}
use goji.Graceful.Signal.{
  Once, running, is_done, Hook, Job, CloseBody, waiting, Shared, closing_once, set_closing_once,
  pre_do, post_do, close_do, notify_do, job_event, next_stage, Event, new_shared,
}

-- Where `shutdown` is: at which `Do`, or returned.
pub data Pc : Type 0 where
  at_pre : Pc
  at_close : Pc
  at_post : Pc
  at_notify : Pc
  returned : Pc

-- A call `shutdown(force, sig)`.
pub record Thread : Type 0 where
  pub force : Bool
  pub sig : Option ℕ
  pub pc : Pc

pub record System : Type 0 where
  pub shared : Shared
  pub threads : List Thread

abbrev pub if_done {ℓ} : {A : Type ℓ} → Once A → Pc → Pc → Pc
if_done c next here = if is_done c then next else here

-- `Do` returns when the body has returned.
abbrev pub next_pc : Bool → Shared → Pc → Pc
next_pc force s at_pre = if_done s.pre_once at_close at_pre
next_pc force s at_close = if_done (closing_once force s) at_post at_close
next_pc force s at_post = if_done s.post_once at_notify at_post
next_pc force s at_notify = if_done s.notify_once returned at_notify
next_pc force s returned = returned

abbrev pub do_once : ℕ → Bool → Option ℕ → Pc → Shared → Shared
do_once i force sig at_pre s = pre_do i sig s.pre_once s
do_once i force sig at_close s = close_do i force (closing_once force s) s
do_once i force sig at_post s = post_do i sig s.post_once s
do_once i force sig at_notify s = notify_do i s.notify_once s
do_once i force sig returned s = s

abbrev pub set_thread : List Thread → ℕ → Pc → List Thread
set_thread [] i p = []
set_thread (t ∷ ts) zero p = record t { pc = p } ∷ ts
set_thread (t ∷ ts) (suc i) p = t ∷ set_thread ts i p

-- One step of the `i`th call of `shutdown`.
abbrev pub advance_thread : ℕ → Option Thread → System → System
advance_thread i none y = y
advance_thread i (some t) y = record {
  shared = do_once i t.force t.sig t.pc y.shared;
  threads = set_thread y.threads i (next_pc t.force y.shared t.pc);
}

-- One step of the goroutine for the `k`th listener.
abbrev pub work_log : Bool → List Job → ℕ → List Event → List Event
work_log force [] k log = log
work_log force (j ∷ js) zero log = job_event force j.stage j.listener log
work_log force (j ∷ js) (suc k) log = work_log force js k log

abbrev pub work_jobs : List Job → ℕ → List Job
work_jobs [] k = []
work_jobs (j ∷ js) zero = record j { stage = next_stage j.stage } ∷ js
work_jobs (j ∷ js) (suc k) = j ∷ work_jobs js k

abbrev pub work_cell : Bool → ℕ → Once CloseBody → Shared → Shared
work_cell force k (running i (waiting js)) s =
    set_closing_once force (running i (waiting (work_jobs js k)))
      (record s { log = work_log force js k s.log })
work_cell force k _ s = s

pub data Action : Type 0 where
  advance : ℕ → Action
  work : Bool → ℕ → Action
  shutdown : Bool → Option ℕ → Action

-- `go shutdown(force, sig)`, or the call of it by `Shutdown` and `ShutdownNow`.
abbrev pub new_thread : Bool → Option ℕ → Thread
new_thread force sig = record { force = force; sig = sig; pc = at_pre }

abbrev pub perform : Action → System → System
perform (advance i) y = advance_thread i (get_elem? y.threads i) y
perform (work force k) y = record y {
  shared = work_cell force k (closing_once force y.shared) y.shared;
}
perform (shutdown force sig) y = record y { threads = y.threads ++ new_thread force sig ∷ [] }

unfoldable pub perform_all : List Action → System → System
perform_all [] y = y
perform_all (a ∷ acts) y = perform_all acts (perform a y)

abbrev pub start : List ℕ → List Hook → List Hook → System
start ls pre post = record { shared = new_shared ls pre post; threads = [] }
