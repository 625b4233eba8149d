-- ===== src/Graceful/Signal.antt =====
-- graceful/signal.go: what the package guards by `mu`, the five `sync.Once`, and the body of each
-- of them. A `sync.Once` is the standard library's: the first goroutine that calls `Do` runs the
-- body, and the others wait until it has returned. The cell of a `Once` that is running says which
-- goroutine runs it and how far the body is. A hook is a number, and a call of it an event in the
-- log, which has the newest event first.
pub mod Threads
pub mod Invariant
pub mod Order
pub mod Loop
pub mod Liveness
pub mod Unforced
pub mod Rounds
mod Tests
use goji.Prelude.{
  ℕ, suc, ◌+◌, Bool, true, false, not, ◌&&◌, ◌||◌, Option, none, some, List, [], ◌∷◌, ◌++◌, map,
  ◌==◌, if◌then◌else◌,
}

pub data Once {ℓ} (A : Type ℓ) : Type ℓ where
  fresh : Once A
  running : ℕ → A → Once A
  done : Once A

abbrev pub is_done {ℓ} : {A : Type ℓ} → Once A → Bool
is_done done = true
is_done _ = false

-- `func(os.Signal)`, or a function without the argument that `PreHook` and `PostHook` wrap.
pub data Hook : Type 0 where
  with_signal : ℕ → Hook
  plain : ℕ → Hook

-- A listener is closed by `l.Close()`, and `l.Drain()` or `l.DrainAll()` returns.
pub data Event : Type 0 where
  called_pre : Hook → Option ℕ → Event
  closed : ℕ → Event
  drained : Bool → ℕ → Event
  called_post : Hook → Option ℕ → Event
  notified : Event

-- What the hook receives: the closure of `PreHook` drops the signal.
abbrev pub passes : Hook → Option ℕ → Option ℕ
passes (with_signal f) sig = sig
passes (plain f) sig = none

-- The body of `preOnce` or `postOnce`: at `mu.Lock()`, or in the loop with these hooks left.
pub data HookBody : Type 0 where
  locking : HookBody
  calling : List Hook → HookBody

-- The goroutine of `closeListeners` for one listener: before `l.Close()`, before the return of
-- `l.Drain()` or `l.DrainAll()`, and after `wg.Done()`.
pub data Stage : Type 0 where
  to_close : Stage
  to_drain : Stage
  finished : Stage

pub record Job : Type 0 where
  pub listener : ℕ
  pub stage : Stage

-- `closeListeners`: before the store to `closing`, at `mu.Lock()`, and at `wg.Wait()`.
pub data CloseBody : Type 0 where
  storing : CloseBody
  acquiring : CloseBody
  waiting : List Job → CloseBody

pub data NotifyBody : Type 0 where
  to_notify : NotifyBody

-- `locked` is `mu`; `panicked` is set when `wait` is closed twice.
pub record Shared : Type 0 where
  pub listeners : List ℕ
  pub prehooks : List Hook
  pub posthooks : List Hook
  pub closing : Bool
  pub locked : Bool
  pub pre_once : Once HookBody
  pub close_once : Once CloseBody
  pub force_once : Once CloseBody
  pub post_once : Once HookBody
  pub notify_once : Once NotifyBody
  pub wait_closed : Bool
  pub panicked : Bool
  pub log : List Event

-- The `Once` for `force`.
abbrev pub closing_once : Bool → Shared → Once CloseBody
closing_once true s = s.force_once
closing_once false s = s.close_once

abbrev pub set_closing_once : Bool → Once CloseBody → Shared → Shared
set_closing_once true c s = record s { force_once = c }
set_closing_once false c s = record s { close_once = c }

abbrev pub new_shared : List ℕ → List Hook → List Hook → Shared
new_shared ls pre post = record {
  listeners = ls;
  prehooks = pre;
  posthooks = post;
  closing = false;
  locked = false;
  pre_once = fresh;
  close_once = fresh;
  force_once = fresh;
  post_once = fresh;
  notify_once = fresh;
  wait_closed = false;
  panicked = false;
  log = [];
}

-- The next step of goroutine `i` in the body of `preOnce`.
abbrev pub pre_body : ℕ → Option ℕ → HookBody → Shared → Shared
pre_body i sig locking s =
    if s.locked then s else record s { locked = true; pre_once = running i (calling s.prehooks) }
pre_body i sig (calling []) s = record s { locked = false; pre_once = done }
pre_body i sig (calling (h ∷ hs)) s = record s {
  pre_once = running i (calling hs);
  log = called_pre h (passes h sig) ∷ s.log;
}

-- A step of goroutine `i` at `preOnce.Do`.
abbrev pub pre_do : ℕ → Option ℕ → Once HookBody → Shared → Shared
pre_do i sig fresh s = record s { pre_once = running i locking }
pre_do i sig (running j b) s = if i == j then pre_body i sig b s else s
pre_do i sig done s = s

abbrev pub post_body : ℕ → Option ℕ → HookBody → Shared → Shared
post_body i sig locking s =
    if s.locked then s else record s { locked = true; post_once = running i (calling s.posthooks) }
post_body i sig (calling []) s = record s { locked = false; post_once = done }
post_body i sig (calling (h ∷ hs)) s = record s {
  post_once = running i (calling hs);
  log = called_post h (passes h sig) ∷ s.log;
}

abbrev pub post_do : ℕ → Option ℕ → Once HookBody → Shared → Shared
post_do i sig fresh s = record s { post_once = running i locking }
post_do i sig (running j b) s = if i == j then post_body i sig b s else s
post_do i sig done s = s

-- `go func(l *listener.T) { … }(l)`
abbrev pub new_job : ℕ → Job
new_job l = record { listener = l; stage = to_close }

abbrev pub is_finished : Stage → Bool
is_finished finished = true
is_finished _ = false

abbrev pub all_finished : List Job → Bool
all_finished [] = true
all_finished (j ∷ js) = is_finished j.stage && all_finished js

-- `closeListeners(force)`: `wg.Wait()` is deferred first, so it runs after `mu.Unlock()`.
abbrev pub close_body : ℕ → Bool → CloseBody → Shared → Shared
close_body i force storing s =
    set_closing_once force (running i acquiring) (record s { closing = true })
close_body i force acquiring s =
    if s.locked then s else set_closing_once force (running i (waiting (map new_job s.listeners))) s
close_body i force (waiting js) s = if all_finished js then set_closing_once force done s else s

abbrev pub close_do : ℕ → Bool → Once CloseBody → Shared → Shared
close_do i force fresh s = set_closing_once force (running i storing) s
close_do i force (running j b) s = if i == j then close_body i force b s else s
close_do i force done s = s

-- `close(wait)`
abbrev pub notify_do : ℕ → Once NotifyBody → Shared → Shared
notify_do i fresh s = record s { notify_once = running i to_notify }
notify_do i (running j b) s =
    if i == j
    then record s {
      notify_once = done;
      wait_closed = true;
      panicked = s.panicked || s.wait_closed;
      log = notified ∷ s.log;
    }
    else s
notify_do i done s = s

-- One step of the goroutine for a listener.
abbrev pub job_event : Bool → Stage → ℕ → List Event → List Event
job_event force to_close l log = closed l ∷ log
job_event force to_drain l log = drained force l ∷ log
job_event force finished l log = log

abbrev pub next_stage : Stage → Stage
next_stage to_close = to_drain
next_stage to_drain = finished
next_stage finished = finished
