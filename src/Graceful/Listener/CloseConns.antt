-- ===== src/Graceful/Listener/CloseConns.antt =====
-- graceful/listener/shard.go: `closeConns`.
use goji.Prelude.{ℕ, zero, suc, Bool, ◌||◌, Option, some, List, [], ◌∷◌, if◌then◌else◌}
use goji.Graceful.Listener.Shard.{Set}
use goji.Graceful.Listener.Conn.{World, world_of, and_then, close, close_if_idle}

-- The first part of `shard.closeConns`, under the lock: the flag, and the set to close.
unfoldable pub snapshot : Bool → Bool → World → Set × World
snapshot all drain w = (
  if all then w.shard.all else w.shard.idle,
  record w { shard = record w.shard { drain = w.shard.drain || drain } },
)

-- The members of a set below a bound.
unfoldable pub members : ℕ → Set → List ℕ
members zero s = []
members (suc n) s = let rest = members n s in if s n then n ∷ rest else rest

-- Its loop over the set, whose order is left open by the language.
unfoldable pub close_each : Bool → List ℕ → World → Option World
unfolding close close_if_idle
close_each all [] w = some w
close_each all (c ∷ cs) w =
    and_then (world_of (if all then close c w else close_if_idle c w)) (close_each all cs)

-- `shard.closeConns`
unfoldable pub close_conns : Bool → Bool → World → Option World
unfolding snapshot members close_each
close_conns all drain w =
    let (set, w') = snapshot all drain w in close_each all (members w'.count set) w'
