-- ===== src/Graceful/Listener/Accepting.antt =====
-- graceful/listener/conn.go: `conn.init`, on a shard that drains or not.
use goji.Prelude.{
  update, suc, ◌+◌, ◌≡◌, ◌∙◌, ap, true, false, some, ==_self, arith, Bool-cases, inl, inr,
}
use goji.Graceful.Listener.Shard.{Shard}
use goji.Graceful.Listener.Conn.{
  World, closed_off, err_closing, nil_error, new_conn, delegated, replies, close, init,
}
use goji.Graceful.Listener.Counting.{live_count-new}
use goji.Graceful.Listener.Invariant.{IsTracked, IsTrackedBut}
use goji.Graceful.Listener.Calls.{Replies, shut-Goes, close-live}

-- `init`
module _ (w : World) (t : IsTracked w) where
  abbrev counted_in : Shard
  counted_in = record w.shard { wg = w.shard.wg + 1 }

  abbrev added : World
  added = record w {
    shard = counted_in;
    conns = update w.count new_conn w.conns;
    count = suc w.count;
  }

  init-drained : w.shard.drain ≡ true → init w ≡ closed_off (close w.count added)
  unfolding init
  init-drained h = rw h

  added-IsTrackedBut : IsTrackedBut w.count added
  added-IsTrackedBut = record {
    all_live = λ j. ground (arith, t.all_live j);
    idle_free = λ j. ground (arith, t.idle_free j);
    counted = omega (arith, t.counted, live_count-new w.count w.conns);
  }

  abbrev entered : Shard
  entered = record counted_in {
    all = update w.count true w.shard.all;
    idle = update w.count true w.shard.idle;
  }

  init-open : w.shard.drain ≡ false → init w ≡ some (nil_error, record added { shard = entered })
  unfolding init
  init-open h = rw h

  pub init-Replies : Replies (init w)
  init-Replies = elim (Bool-cases w.shard.drain) [
    | inl draining ↦
        let (w', e, t') =
          shut-Goes added w.count (omega arith) added-IsTrackedBut (rw (==_self w.count)) in
        (
          (err_closing, w'),
          init-drained draining
              ∙ ap closed_off (
                  close-live added w.count (omega arith) (rw (==_self w.count))
                    (rw (==_self w.count))
                  ∙ ap (replies delegated) e),
          t',
        )
    | inr lasting ↦ (
      _,
      init-open lasting,
      record {
        all_live = λ j. ground (arith, t.all_live j);
        idle_free = λ j. ground (arith, t.idle_free j);
        counted = omega (arith, t.counted, live_count-new w.count w.conns);
      },
    )
  ]
