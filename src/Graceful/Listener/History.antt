-- ===== src/Graceful/Listener/History.antt =====
-- graceful/listener: histories of a shard, the calls on its connections in any order. `closeConns`
-- is the step that takes the snapshot, and one call of `Close` or `closeIfIdle` for each connection
-- in it, with other calls between them.
use goji.Prelude.{ℕ, ◌<◌, ◌≡◌, refl, sym, ap, subst, Bool, false, Option, some, List, [], ◌∷◌}
use goji.Graceful.Listener.Conn.{
  Mode, World, Reply, world_of, and_then, close, close_if_idle, mark_idle, mark_in_use, read,
  set_read_deadline, disown, init,
}
use goji.Graceful.Listener.CloseConns.{snapshot}
use goji.Graceful.Listener.Invariant.{IsTracked}
use goji.Graceful.Listener.Accepting.{init-Replies}
use goji.Graceful.Listener.Calls.{
  Goes, Replies, close-Replies, close_if_idle-Replies, mark_in_use-IsTracked, mark_idle-Goes,
  read-IsTracked, disown-Replies, set_read_deadline-Goes,
}

pub data Call : Type 0 where
  accepts : Call
  reads : Bool → ℕ → Call
  closes : ℕ → Call
  closes_if_idle : ℕ → Call
  marks_idle : ℕ → Call
  marks_in_use : ℕ → Call
  sets_read_deadline : ℕ → Call
  disowns : ℕ → Call
  snapshots : Bool → Bool → Call

unfoldable pub call : Mode → Call → World → Option World
unfolding close close_if_idle mark_idle mark_in_use read set_read_deadline disown init snapshot
call m accepts w = world_of (init w)
call m (reads ok c) w = some (read m ok c w).1
call m (closes c) w = world_of (close c w)
call m (closes_if_idle c) w = world_of (close_if_idle c w)
call m (marks_idle c) w = mark_idle c w
call m (marks_in_use c) w = some (mark_in_use c w)
call m (sets_read_deadline c) w = set_read_deadline m c w
call m (disowns c) w = world_of (disown c w)
call m (snapshots all drain) w = some (snapshot all drain w).1

-- The calls one after another, until one of them panics.
unfoldable pub run : Mode → List Call → World → Option World
run m [] w = some w
run m (x ∷ xs) w = and_then (call m x w) (run m xs)

-- A call is made on a connection that `Accept` made, and no closed connection is disowned.
abbrev pub Fits : Call → World → Type 0
Fits accepts w = Unit
Fits (reads ok c) w = c < w.count
Fits (closes c) w = c < w.count
Fits (closes_if_idle c) w = c < w.count
Fits (marks_idle c) w = c < w.count
Fits (marks_in_use c) w = c < w.count
Fits (sets_read_deadline c) w = c < w.count
Fits (disowns c) w = (c < w.count) × ((w.conns c).closed ≡ false)
Fits (snapshots all drain) w = Unit

abbrev pub AllFit : Mode → List Call → World → Type 0
AllFit m [] w = Unit
AllFit m (x ∷ xs) w = Fits x w × ((w' : World) → call m x w ≡ some w' → AllFit m xs w')

Replies-world_of : (o : Option (Reply × World)) → Replies o → Goes (world_of o)
Replies-world_of o (p, e, t) = (p.1, ap world_of e, t)

pub call-Goes : (m : Mode) (x : Call) (w : World) → IsTracked w → Fits x w → Goes (call m x w)
unfolding call
call-Goes m accepts w t f = Replies-world_of (init w) (init-Replies w t)
call-Goes m (reads ok c) w t f = (_, refl, read-IsTracked w c t f m ok)
call-Goes m (closes c) w t f = Replies-world_of (close c w) (close-Replies w c t f)
call-Goes m (closes_if_idle c) w t f =
    Replies-world_of (close_if_idle c w) (close_if_idle-Replies w c t f)
call-Goes m (marks_idle c) w t f = mark_idle-Goes w c t f
call-Goes m (marks_in_use c) w t f = (_, refl, mark_in_use-IsTracked w c t f)
call-Goes m (sets_read_deadline c) w t f = set_read_deadline-Goes w c t f m
call-Goes m (disowns c) w t f = Replies-world_of (disown c w) (disown-Replies w c t f.0 f.1)
call-Goes m (snapshots all drain) w t f =
    (_, refl, record { all_live = t.all_live; idle_free = t.idle_free; counted = t.counted })

pub run-some :
    (m : Mode) (x : Call) (xs : List Call) (w w' : World)
    → call m x w ≡ some w'
    → run m (x ∷ xs) w ≡ run m xs w'
unfolding run
run-some m x xs w w' e = rw e

-- Any history of calls on connections of the shard in which no closed connection is disowned, in
-- any order and on any connections, runs without a panic of the wait group; and after it `all`
-- holds the connections that are neither closed nor disowned, `idle` holds those of them that are
-- not busy, and the wait group counts them.
pub run-IsTracked :
    (m : Mode) (xs : List Call) (w : World) → IsTracked w → AllFit m xs w → Goes (run m xs w)
unfolding run
run-IsTracked m [] w t f = (w, refl, t)
run-IsTracked m (x ∷ xs) w t (f, fs) =
    let (w', e, t') = call-Goes m x w t f in
    subst Goes (sym (run-some m x xs w w' e)) (run-IsTracked m xs w' t' (fs w' e))
