-- ===== src/Graceful/Listener/Conn.antt =====
-- graceful/listener/conn.go: connections and their state machine. A heap maps each pointer to its
-- connection; the connections made so far are those below `count`. Each call holds the connection's
-- lock and is one step.
use goji.Prelude.{
  update, ℕ, suc, ◌+◌, ◌-◌, Bool, true, false, not, ◌&&◌, Option, none, some, ◌==◌, if◌then◌else◌,
}
use goji.Graceful.Listener.Shard
use goji.Graceful.Listener.Shard.{Set, Shard, new_shard, track}

pub data Mode : Type 0 where
  manual : Mode
  automatic : Mode
  deadline : Mode

-- `conn`; `closes` counts the calls of `Close` on the connection inside.
pub record Conn : Type 0 where
  pub busy : Bool
  pub closed : Bool
  pub disowned : Bool
  pub closes : ℕ

-- A shard, and the heap of its connections.
pub record World : Type 0 where
  pub shard : Shard
  pub conns : ℕ → Conn
  pub count : ℕ

-- What a call returns: nil, the result of the same call on the connection inside, or one of the
-- package's errors.
pub data Reply : Type 0 where
  nil_error : Reply
  delegated : Reply
  err_closing : Reply
  err_already_disowned : Reply

abbrev pub new_conn : Conn
new_conn = record { busy = false; closed = false; disowned = false; closes = 0 }

abbrev pub new_world : World
new_world = record { shard = new_shard; conns = λ c. new_conn; count = 0 }

-- `s.wg.Done()`: a counter below 0 panics.
abbrev pub done : World → Option World
done w =
    if w.shard.wg == 0
    then none
    else some (record w { shard = record w.shard { wg = w.shard.wg - 1 } })

abbrev pub set_conn : ℕ → Conn → World → World
set_conn c k w = record w { conns = update c k w.conns }

-- `c.closed = true`, `c.shard.disown(c)`, `c.Conn.Close()` and the deferred `c.shard.wg.Done()`.
abbrev pub shut : ℕ → World → Option World
shut c w =
    let k = w.conns c in
    done (record (set_conn c (record k { closed = true; closes = k.closes + 1 }) w) {
      shard = Shard.disown c w.shard;
    })

abbrev pub replies : Reply → Option World → Option (Reply × World)
replies r none = none
replies r (some w) = some (r, w)

abbrev pub world_of : Option (Reply × World) → Option World
world_of none = none
world_of (some (r, w)) = some w

abbrev pub and_then : Option World → (World → Option World) → Option World
and_then none f = none
and_then (some w) f = f w

-- `conn.Close`
unfoldable pub close : ℕ → World → Option (Reply × World)
close c w =
    let k = w.conns c in
    if k.disowned
    then some (delegated, set_conn c (record k { closes = k.closes + 1 }) w)
    else if k.closed
    then some (err_closing, w)
    else replies delegated (shut c w)

-- `conn.closeIfIdle`
unfoldable pub close_if_idle : ℕ → World → Option (Reply × World)
close_if_idle c w =
    let k = w.conns c in
    if not k.busy && (not k.closed && not k.disowned)
    then replies delegated (shut c w)
    else some (nil_error, w)

-- `conn.markIdle`
unfoldable pub mark_idle : ℕ → World → Option World
mark_idle c w =
    let k = w.conns c in
    let (exit, s) = Shard.mark_idle c w.shard in
    let w' = record (set_conn c (record k { busy = false }) w) { shard = s } in
    if not k.busy
    then some w
    else if exit && (not k.closed && not k.disowned)
    then shut c w'
    else some w'

-- `c.busy = true` and `c.shard.markInUse(c)`.
abbrev pub use_conn : ℕ → World → World
use_conn c w = record (set_conn c (record (w.conns c) { busy = true }) w) {
  shard = Shard.mark_in_use c w.shard;
}

-- `conn.markInUse`
unfoldable pub mark_in_use : ℕ → World → World
mark_in_use c w =
    let k = w.conns c in if not k.busy && (not k.closed && not k.disowned) then use_conn c w else w

-- What `Read` gives back: the bytes and the error of the read inside, or 0 and `errClosing`.
pub data ReadResult : Type 0 where
  inner : ReadResult
  closing : ReadResult

abbrev pub is_manual : Mode → Bool
is_manual manual = true
is_manual _ = false

-- `conn.Read`, once the read inside has returned; `ok` says that it gave no error.
unfoldable pub read : Mode → Bool → ℕ → World → ReadResult × World
read m ok c w =
    let k = w.conns c in
    if k.disowned
    then (inner, w)
    else if k.closed && ok
    then (closing, w)
    else if not (is_manual m) && (not k.busy && not k.closed)
    then (inner, use_conn c w)
    else (inner, w)

abbrev pub is_deadline : Mode → Bool
is_deadline deadline = true
is_deadline _ = false

-- `conn.SetReadDeadline`: its test and the deferred `markIdle` are two sections under the lock, here one
-- step. Where other calls come between them, a history has the call of `markIdle` by itself.
unfoldable pub set_read_deadline : Mode → ℕ → World → Option World
unfolding mark_idle
set_read_deadline m c w =
    if not (w.conns c).disowned && is_deadline m then mark_idle c w else some w

-- `conn.disown`
unfoldable pub disown : ℕ → World → Option (Reply × World)
disown c w =
    let k = w.conns c in
    if k.disowned
    then some (err_already_disowned, w)
    else replies nil_error (
        done
          (record (set_conn c (record k { disowned = true }) w) { shard = Shard.disown c w.shard }))

-- `conn.init` on a new connection, as `Accept` calls it: the connection, or `errClosing`.
abbrev pub closed_off : Option (Reply × World) → Option (Reply × World)
closed_off none = none
closed_off (some (r, w)) = some (err_closing, w)

unfoldable pub init : World → Option (Reply × World)
unfolding close
init w =
    let c = w.count in
    let s = record w.shard { wg = w.shard.wg + 1 } in
    let (should_exit, s') = track c s in
    let w' : World = record { shard = s'; conns = update c new_conn w.conns; count = suc c } in
    if should_exit then closed_off (close c w') else some (nil_error, w')
