-- ===== src/Graceful/Listener/Shards.antt =====
-- graceful/listener/listener.go: the listener and its shards.
use goji.Prelude.{
  ℕ, zero, suc, ◌+◌, ◌^◌, ◌%◌, ◌<◌, ◌≡◌, refl, ap, Bool, true, false, Option, none, some, List, [],
  ◌∷◌, length, if◌then◌else◌, arith, All,
}
use native.Mathlib.Nat.{mod-lt}
use goji.Graceful.Listener.Conn.{Mode, World, new_world, Reply, init}
use goji.Graceful.Listener.CloseConns.{close_conns}
use goji.Graceful.Listener.Counting.{live_count}
use goji.Graceful.Listener.Invariant.{IsTracked}
use goji.Graceful.Listener.Accepting.{init-Replies}
use goji.Graceful.Listener.Calls.{Replies}
use goji.Graceful.Listener.Closing.{close_conns-drains}

-- `T`: each shard with the connections that point to it.
pub record Listener : Type 0 where
  pub conn_count : ℕ
  pub shards : List World
  pub mode : Mode

repeat : ℕ → List World
repeat zero = []
repeat (suc n) = new_world ∷ repeat n

-- `Wrap`, on a machine with `cpus` processors.
unfoldable pub wrap : ℕ → Mode → Listener
unfolding repeat
wrap cpus m = record { conn_count = 0; shards = repeat (cpus + cpus); mode = m }

abbrev in_front : Option (Reply × World) → List World → Option (Reply × List World)
in_front none ws = none
in_front (some (r, w)) ws = some (r, w ∷ ws)

abbrev behind : World → Option (Reply × List World) → Option (Reply × List World)
behind w none = none
behind w (some (r, ws)) = some (r, w ∷ ws)

-- A call on one shard; an index out of range panics.
unfoldable pub at_shard :
    ℕ → (World → Option (Reply × World)) → List World → Option (Reply × List World)
at_shard i f [] = none
at_shard zero f (w ∷ ws) = in_front (f w) ws
at_shard (suc i) f (w ∷ ws) = behind w (at_shard i f ws)

-- What `Accept` returns: the listener's error, or the answer of `init`.
pub data Accepted : Type 0 where
  failed : Listener → Accepted
  made : Reply → Listener → Accepted
  panicked : Accepted

-- The number of the next connection, a `uint64`.
abbrev pub next_id : Listener → ℕ
next_id t = (t.conn_count + 1) % 2 ^ 64

accepted_by : Listener → Option (Reply × List World) → Accepted
accepted_by t none = panicked
accepted_by t (some (r, ws)) = made r (record t { conn_count = next_id t; shards = ws })

-- `Accept`; `ok` says that the wrapped listener gave a connection.
unfoldable pub accept : Bool → Listener → Accepted
unfolding at_shard accepted_by
accept ok t =
    if ok then accepted_by t (at_shard (next_id t % length t.shards) init t.shards) else failed t

abbrev both : Option World → Option (List World) → Option (List World)
both none ws = none
both (some w) none = none
both (some w) (some ws) = some (w ∷ ws)

-- A loop over the shards.
unfoldable pub each_shard : (World → Option World) → List World → Option (List World)
each_shard f [] = some []
each_shard f (w ∷ ws) = both (f w) (each_shard f ws)

abbrev with_shards : Listener → Option (List World) → Option Listener
with_shards t none = none
with_shards t (some ws) = some (record t { shards = ws })

-- `CloseIdle`
unfoldable pub close_idle : Listener → Option Listener
unfolding each_shard close_conns
close_idle t = with_shards t (each_shard (close_conns false false) t.shards)

-- The first loop of `Drain` and of `DrainAll`.
unfoldable pub start_drain : Bool → Listener → Option Listener
unfolding each_shard close_conns
start_drain all t = with_shards t (each_shard (close_conns all true) t.shards)

-- Their second loop returns when every wait group is at 0.
abbrev pub Waited : Listener → Type 0
Waited t = All (λ w. w.shard.wg ≡ 0) t.shards

abbrev pub AllTracked : Listener → Type 0
AllTracked t = All IsTracked t.shards

each_shard-All :
    (P Q : World → Type 0) (f : World → Option World) (ws : List World)
    → ((w : World) → P w → (w' : World) × (f w ≡ some w') × Q w')
    → All P ws
    → (ws' : List World) × (each_shard f ws ≡ some ws') × All Q ws'
unfolding each_shard
each_shard-All P Q f [] h a = ([], refl, tt)
each_shard-All P Q f (w ∷ ws) h (a, rest) =
    let (w', e, q) = h w a in
    let (ws', es, qs) = each_shard-All P Q f ws h rest in (w' ∷ ws', rw (e, es), (q, qs))

-- `DrainAll`, with no other call between: it does not panic, and when its first loop is over every
-- wait group is at 0, so that it returns; `Drain` neither panics, and leaves each shard with a right
-- account.
pub start_drain-Waited :
    (t : Listener)
    → AllTracked t
    → ((t' : Listener) × (start_drain true t ≡ some t') × Waited t')
      × ((t' : Listener) × (start_drain false t ≡ some t') × AllTracked t')
unfolding start_drain
start_drain-Waited t tracked =
    let (ws, e, waited) =
      each_shard-All IsTracked (λ w. w.shard.wg ≡ 0) (close_conns true true) t.shards
        (λ w k. (close_conns-drains w k).1) tracked in
    let (ws', e', kept) =
      each_shard-All IsTracked IsTracked (close_conns false true) t.shards
        (λ w k. let (w', f, k', _) = (close_conns-drains w k).0 in (w', f, k')) tracked in
    ((_, ap (with_shards t) e, waited), (_, ap (with_shards t) e', kept))

at_shard-Replies :
    (i : ℕ) (f : World → Option (Reply × World)) (ws : List World)
    → ((w : World) → IsTracked w → Replies (f w))
    → i < length ws
    → All IsTracked ws
    → (p : Reply × List World) × (at_shard i f ws ≡ some p)
      × All IsTracked p.1
      × (length p.1 ≡ length ws)
unfolding at_shard
at_shard-Replies i f [] h lt k = absurd (omega arith)
at_shard-Replies zero f (w ∷ ws) h lt (k, ks) =
    let (p, e, k') = h w k in ((p.0, p.1 ∷ ws), rw e, (k', ks), refl)
at_shard-Replies (suc i) f (w ∷ ws) h lt (k, ks) =
    let (p, e, ks', same) = at_shard-Replies i f ws h (omega arith) ks in
    ((p.0, w ∷ p.1), rw e, (k, ks'), omega (arith, same))

-- `Accept` on a listener with a shard: it does not index out of range and does not panic, and keeps
-- the account of every shard and the number of shards.
pub accept-AllTracked :
    (t : Listener)
    → 0 < length t.shards
    → AllTracked t
    → (r : Reply) × (t' : Listener) × (accept true t ≡ made r t')
      × AllTracked t'
      × (length t'.shards ≡ length t.shards)
unfolding accept accepted_by
accept-AllTracked t some_shard tracked =
    let (p, e, kept, same) =
      at_shard-Replies (next_id t % length t.shards) init t.shards init-Replies
        (mod-lt (next_id t) some_shard) tracked in
    (p.0, _, ap (accepted_by t) e, kept, same)

pub new_world-IsTracked : IsTracked new_world
unfolding live_count
new_world-IsTracked = record {
  all_live = λ c. ground arith;
  idle_free = λ c lt. absurd (omega arith);
  counted = refl;
}

-- `Wrap` makes a listener whose shards have a right account.
pub wrap-AllTracked : (cpus : ℕ) (m : Mode) → AllTracked (wrap cpus m)
unfolding wrap
wrap-AllTracked cpus m = repeat-tracked (cpus + cpus)
  where
    repeat-tracked : (n : ℕ) → All IsTracked (repeat n)
    repeat-tracked zero = tt
    repeat-tracked (suc n) = (new_world-IsTracked, repeat-tracked n)
