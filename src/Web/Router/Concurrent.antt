-- ===== src/Web/Router/Concurrent.antt =====
-- web/router.go and web/atomic.go: goroutines on one router. `rt.lock` is held from the lock of
-- `handle` and of `compile` to its unlock; the machine's pointer is read and written at once, also by
-- a goroutine without the lock. Of `getMatch` this is the part up to its machine; what follows reads
-- that machine alone.
pub mod Invariant
pub mod Steps
pub mod Progress
pub mod Linear
mod Tests
use goji.Prelude.{ℕ, Option, none, some, List, [], ◌∷◌, ◌++◌, length, update}
use goji.Web.Method.{Method}
use goji.Web.Route.{Request, Pattern, Route}
use goji.Web.Context.{Context, Match}
use goji.Web.Bytecode.Runner
use goji.Web.Router.{RouteMachine, Router, Outcome, ended, handle, compile_router}
use goji.Web.Router.Naive.{new_router}
use goji.Web.Router.History.{Call, handles}

-- What a goroutine does: nothing; `handle`, before the lock, with the new list, and after
-- `setMachine(nil)`; `getMatch` or `Compile`, before it reads the machine, where it found none, with
-- the lock, and with a machine. A number says how many calls of `handle` had stored their list when
-- the goroutine began.
pub data Thread (H : Type 0) : Type 0 where
  rests : Thread H
  adds : Pattern (Context H) → Method → H → Thread H
  copied : Pattern (Context H) → Method → H → List (Route (Context H) H) → Thread H
  dropped : Pattern (Context H) → Method → H → List (Route (Context H) H) → Thread H
  seeks : ℕ → Thread H
  misses : ℕ → Thread H
  compiled : ℕ → RouteMachine (Context H) H → Thread H
  found : ℕ → RouteMachine (Context H) H → Thread H

-- The router, the goroutine that holds the lock, the calls of `handle` that have stored their list,
-- in that order, and the goroutines by their numbers.
pub record System (H : Type 0) : Type 0 where
  pub router : Router (Context H) H
  pub holder : Option ℕ
  pub stored : List (Call H)
  pub threads : ℕ → Thread H

-- A goroutine that rests or has its machine begins a call; or it goes one step on.
pub data Event (H : Type 0) : Type 0 where
  calls_handle : ℕ → Pattern (Context H) → Method → H → Event H
  calls_get_match : ℕ → Event H
  calls_compile : ℕ → Event H
  steps : ℕ → Event H

module _ {H : Type 0} where
  abbrev pub set_thread : ℕ → Thread H → System H → System H
  set_thread i t s = record s { threads = update i t s.threads }

  abbrev pub begin_call : ℕ → Thread H → Thread H → System H → System H
  begin_call i t rests s = set_thread i t s
  begin_call i t (found n rm) s = set_thread i t s
  begin_call i t _ s = s

  -- `rt.lock.Lock()`, which waits where another goroutine has the lock.
  abbrev pub lock_as : Option ℕ → ℕ → Thread H → System H → System H
  lock_as (some j) i t s = s
  lock_as none i t s = set_thread i t (record s { holder = some i })

  -- `rt.getMachine()`
  abbrev pub loaded : ℕ → Option (RouteMachine (Context H) H) → Thread H
  loaded n none = misses n
  loaded n (some rm) = found n rm

  -- One step of goroutine `i`.
  unfoldable pub step_thread : ℕ → Thread H → System H → System H
  step_thread i rests s = s
  step_thread i (adds p m h) s = lock_as s.holder i (copied p m h (handle s.router p m h).routes) s
  step_thread i (copied p m h rs) s =
      set_thread i (dropped p m h rs) (record s { router = record s.router { machine = none } })
  step_thread i (dropped p m h rs) s = set_thread i rests (record s {
    router = record s.router { routes = rs };
    holder = none;
    stored = s.stored ++ handles p m h ∷ [];
  })
  step_thread i (seeks n) s = set_thread i (loaded n s.router.machine) s
  step_thread i (misses n) s = lock_as s.holder i (compiled n (compile_router s.router).0) s
  step_thread i (compiled n rm) s =
      set_thread i (found n rm)
        (record s { router = record s.router { machine = some rm }; holder = none })
  step_thread i (found n rm) s = s

  unfoldable pub happens : Event H → System H → System H
  unfolding step_thread
  happens (calls_handle i p m h) s = begin_call i (adds p m h) (s.threads i) s
  happens (calls_get_match i) s = begin_call i (seeks (length s.stored)) (s.threads i) s
  happens (calls_compile i) s = begin_call i (misses (length s.stored)) (s.threads i) s
  happens (steps i) s = step_thread i (s.threads i) s

  unfoldable pub happen : List (Event H) → System H → System H
  unfolding happens
  happen [] s = s
  happen (e ∷ es) s = happen es (happens e s)

  abbrev pub new_system : H → System H
  new_system nf = record {
    router = new_router nf;
    holder = none;
    stored = [];
    threads = λ i. rests;
  }

  -- The rest of `getMatch`.
  abbrev pub answer :
      H → RouteMachine (Context H) H → Request → Context H → Outcome (Match H × Context H)
  answer nf rm r c = ended nf (Runner.route rm.sm rm.routes r c)
