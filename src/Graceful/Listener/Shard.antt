-- ===== src/Graceful/Listener/Shard.antt =====
-- graceful/listener/shard.go: the sets of connections. A connection is known by its number, its
-- pointer.
use goji.Prelude.{ℕ, Bool, true, false, if◌then◌else◌, update}

-- `map[*conn]struct{}`
abbrev pub Set : Type 0
Set = ℕ → Bool

pub record Shard : Type 0 where
  pub idle : Set
  pub all : Set
  pub wg : ℕ
  pub drain : Bool

-- `shard.init`
abbrev pub new_shard : Shard
new_shard = record { idle = λ c. false; all = λ c. false; wg = 0; drain = false }

-- `shard.track`
abbrev pub track : ℕ → Shard → Bool × Shard
track c s =
    if s.drain
    then (true, s)
    else (false, record s { all = update c true s.all; idle = update c true s.idle })

-- `shard.disown`
abbrev pub disown : ℕ → Shard → Shard
disown c s = record s { all = update c false s.all; idle = update c false s.idle }

-- `shard.markIdle`
abbrev pub mark_idle : ℕ → Shard → Bool × Shard
mark_idle c s = if s.drain then (true, s) else (false, record s { idle = update c true s.idle })

-- `shard.markInUse`
abbrev pub mark_in_use : ℕ → Shard → Shard
mark_in_use c s = record s { idle = update c false s.idle }
