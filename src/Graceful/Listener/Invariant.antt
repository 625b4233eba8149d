-- ===== src/Graceful/Listener/Invariant.antt =====
-- graceful/listener: the sets and the wait group of a shard against the state of its connections.
use goji.Prelude.{
  ℕ, ◌-◌, ◌≤◌, ◌<◌, ◌≡◌, sym, ap, subst, true, false, not, ◌&&◌, some, ◌==◌, ==_iff, ltb, arith,
  Bool-cases, inl, inr,
}
use goji.Graceful.Listener.Shard
use goji.Graceful.Listener.Shard.{Set, Shard, track}
use goji.Graceful.Listener.Conn.{Conn, World, done, set_conn}
use goji.Graceful.Listener.Counting.{live, num, live_count, live_count-update}

-- The set `all` holds the connections that are neither closed nor disowned, `idle` holds those of
-- them that are not busy, and the wait group counts them. `idle` may hold dead connections too.
pub record IsTracked (w : World) : Type 0 where
  pub all_live : (c : ℕ) → w.shard.all c ≡ (ltb c w.count && live (w.conns c))
  pub idle_free :
      (c : ℕ) → c < w.count → live (w.conns c) ≡ true → w.shard.idle c ≡ not (w.conns c).busy
  pub counted : w.shard.wg ≡ live_count w.count w.conns

-- The same, except that nothing is said of whether `c` is in the sets.
pub record IsTrackedBut (c : ℕ) (w : World) : Type 0 where
  pub all_live : (j : ℕ) → (j == c) ≡ false → w.shard.all j ≡ (ltb j w.count && live (w.conns j))
  pub idle_free :
      (j : ℕ)
      → (j == c) ≡ false
      → j < w.count
      → live (w.conns j) ≡ true
      → w.shard.idle j ≡ not (w.conns j).busy
  pub counted : w.shard.wg ≡ live_count w.count w.conns

pub IsTracked-IsTrackedBut : (c : ℕ) (w : World) → IsTracked w → IsTrackedBut c w
IsTracked-IsTrackedBut c w t = record {
  all_live = λ j e. t.all_live j;
  idle_free = λ j e. t.idle_free j;
  counted = t.counted;
}

-- The shard without a connection and with one count less.
abbrev pub without : ℕ → Shard → Shard
without c s = record (Shard.disown c s) { wg = s.wg - 1 }

module _ (w : World) (c : ℕ) (t : IsTrackedBut c w) (made : c < w.count) where
  pub live-counted : live (w.conns c) ≡ true → 1 ≤ w.shard.wg
  live-counted h = omega (
    arith,
    t.counted,
    ap num h,
    live_count-update w.count c (record (w.conns c) { closed = true }) w.conns made,
  )

  -- A connection is retired.
  pub IsTracked-retire :
      (k : Conn)
      → live (w.conns c) ≡ true
      → live k ≡ false
      → IsTracked (record (set_conn c k w) { shard = without c w.shard })
  IsTracked-retire k h dead = record {
    all_live = λ j. ground (arith, t.all_live j);
    idle_free = λ j. ground (arith, t.idle_free j);
    counted =
        omega (arith, t.counted, ap num h, ap num dead, live_count-update w.count c k w.conns made);
  }

module _ (w : World) (c : ℕ) (t : IsTracked w) (made : c < w.count) where
  -- A connection changes and is as live as before.
  pub IsTracked-change :
      (k : Conn) (idle' : Set)
      → live k ≡ live (w.conns c)
      → ((j : ℕ) → (j == c) ≡ false → idle' j ≡ w.shard.idle j)
      → (live k ≡ true → idle' c ≡ not k.busy)
      → IsTracked (record (set_conn c k w) { shard = record w.shard { idle = idle' } })
  IsTracked-change k idle' same off on = record {
    all_live = λ j. ground (arith, t.all_live j);
    idle_free = λ j lt. elim (Bool-cases (j == c)) [
      | inl here ↦
          rw here (λ l. subst (λ i. idle' i ≡ not k.busy) (sym ((==_iff j c).0 here)) (on l))
      | inr other ↦ rw (other, off j other) (t.idle_free j lt)
    ];
    counted = omega (arith, t.counted, ap num same, live_count-update w.count c k w.conns made);
  }

pub done-succeeds :
    (w : World)
    → 1 ≤ w.shard.wg
    → done w ≡ some (record w { shard = record w.shard { wg = w.shard.wg - 1 } })
done-succeeds w h = ground arith
