-- ===== src/Graceful/Server/Run.antt =====
-- graceful/serve13.go with graceful/listener: a server of `net/http` on one shard, in the mode
-- Automatic, while the listener is drained and not forced. What `net/http` does with a connection is
-- the life that the documentation of `http.ConnState` gives it.
use goji.Prelude.{ℕ, Bool, true, false, Option, none, some, List, [], ◌∷◌, if◌then◌else◌, update}
use goji.Graceful.Listener.Conn.{
  automatic, World, new_world, Reply, nil_error, ReadResult, inner, init, read,
}
use goji.Graceful.Listener.History.{Call, accepts, reads, closes, closes_if_idle, snapshots, run}
use goji.Graceful.Server.{state_idle, state_hijacked, state_closed, wrap_calls}

-- Where the server stands with a connection: not accepted; before the first byte of a request; from
-- then on until the response is done, StateActive included; after a failed read; hijacked; and done
-- with.
pub data Phase : Type 0 where
  absent : Phase
  waiting : Phase
  working : Phase
  failed : Phase
  hijacked : Phase
  ended : Phase

pub record Served : Type 0 where
  pub world : World
  pub phases : ℕ → Phase

-- The server accepts; a read on a connection returns, with or without an error; a request is done
-- and the connection is kept, StateIdle; a handler hijacks it, StateHijacked; the server closes it,
-- StateClosed. `Drain` begins, and it comes to a connection of its snapshot.
pub data ServerEvent : Type 0 where
  opens : ServerEvent
  receives : Bool → ℕ → ServerEvent
  finishes : ℕ → ServerEvent
  hijacks : ℕ → ServerEvent
  ends : ℕ → ServerEvent
  begins_drain : ServerEvent
  drains_conn : ℕ → ServerEvent

abbrev pub exists : Phase → Bool
exists absent = false
exists _ = true

abbrev pub is_waiting : Phase → Bool
is_waiting waiting = true
is_waiting _ = false

abbrev pub is_working : Phase → Bool
is_working working = true
is_working _ = false

-- The server reads from the connection.
abbrev pub is_open : Phase → Bool
is_open waiting = true
is_open working = true
is_open _ = false

-- The server closes the connection at some time.
abbrev pub is_managed : Phase → Bool
is_managed waiting = true
is_managed working = true
is_managed failed = true
is_managed _ = false

abbrev pub accepted : Option (Reply × World) → Phase
accepted (some (nil_error, w)) = waiting
accepted _ = ended

abbrev pub received : Phase → Bool → ReadResult → Phase
received waiting true inner = working
received waiting _ _ = failed
received p ok r = p

-- The calls on the connections of the listener.
unfoldable pub calls_of : ServerEvent → Served → List Call
calls_of opens s = accepts ∷ []
calls_of (receives ok c) s = if is_open (s.phases c) then reads ok c ∷ [] else []
calls_of (finishes c) s = if is_working (s.phases c) then wrap_calls c state_idle else []
calls_of (hijacks c) s = if is_working (s.phases c) then wrap_calls c state_hijacked else []
calls_of (ends c) s = if is_managed (s.phases c) then closes c ∷ wrap_calls c state_closed else []
calls_of begins_drain s = snapshots false true ∷ []
calls_of (drains_conn c) s = if exists (s.phases c) then closes_if_idle c ∷ [] else []

unfoldable pub phases_of : ServerEvent → Served → ℕ → Phase
phases_of opens s = update s.world.count (accepted (init s.world)) s.phases
phases_of (receives ok c) s =
    let later = received (s.phases c) ok (read automatic ok c s.world).0 in
    update c (if is_open (s.phases c) then later else s.phases c) s.phases
phases_of (finishes c) s =
    update c (if is_working (s.phases c) then waiting else s.phases c) s.phases
phases_of (hijacks c) s =
    update c (if is_working (s.phases c) then hijacked else s.phases c) s.phases
phases_of (ends c) s = update c (if is_managed (s.phases c) then ended else s.phases c) s.phases
phases_of begins_drain s = s.phases
phases_of (drains_conn c) s = s.phases

abbrev pub with_phases : (ℕ → Phase) → Option World → Option Served
with_phases phases none = none
with_phases phases (some w) = some (record { world = w; phases = phases })

-- Where a call panics, there is no server any more.
unfoldable pub serve_event : ServerEvent → Served → Option Served
unfolding calls_of phases_of
serve_event e s = with_phases (phases_of e s) (run automatic (calls_of e s) s.world)

abbrev pub then_serve : Option Served → (Served → Option Served) → Option Served
then_serve none f = none
then_serve (some s) f = f s

unfoldable pub serve_events : List ServerEvent → Served → Option Served
unfolding serve_event
serve_events [] s = some s
serve_events (e ∷ es) s = then_serve (serve_event e s) (serve_events es)

abbrev pub new_served : Served
new_served = record { world = new_world; phases = λ c. absent }
