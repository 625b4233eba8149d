-- ===== src/Graceful/Listener/Faults.antt =====
-- graceful/listener/conn.go: `disown` and `markIdle` on a connection that is closed.
use goji.Prelude.{ℕ, suc, ◌<◌, ◌≡◌, ◌∙◌, ap, true, false, none, some, ==_self, arith}
use goji.Graceful.Listener.Conn.{
  World, Reply, nil_error, done, replies, close_if_idle, mark_idle, disown,
}
use goji.Graceful.Listener.Counting.{live, num, live_count, live_count-update}
use goji.Graceful.Listener.Invariant.{IsTracked, done-succeeds}
use goji.Graceful.Listener.Calls.{disown-ours, mark_idle-keeps}

done_panics : (w : World) → w.shard.wg ≡ 0 → done w ≡ none
done_panics w h = rw h

-- Disowning a connection that is closed, and not disowned yet, counts it off a second time. Where the shard manages no
-- connection the wait group panics; where it manages some, the wait group is then below their
-- number, by one.
pub disown-closed :
    (w : World) (c : ℕ)
    → IsTracked w
    → c < w.count
    → (w.conns c).closed ≡ true
    → (w.conns c).disowned ≡ false
    → (live_count w.count w.conns ≡ 0 → disown c w ≡ none)
      × ((n : ℕ)
          → live_count w.count w.conns ≡ suc n
          → (p : Reply × World) × (disown c w ≡ some p)
            × (p.1.shard.wg ≡ n)
            × (live_count p.1.count p.1.conns ≡ suc n))
disown-closed w c t made shut ours =
    let k = record (w.conns c) { disowned = true } in
    let dead : live (w.conns c) ≡ false = rw shut in
    let dead' : live k ≡ false = rw shut in
    let asked = disown-ours w c made ours in
    (
      λ z. asked ∙ ap (replies nil_error) (done_panics _ (t.counted ∙ z)),
      λ n e. (
        _,
        asked ∙ ap (replies nil_error) (done-succeeds _ (omega (arith, t.counted))),
        omega (arith, t.counted),
        omega (arith, ap num dead, ap num dead', live_count-update w.count c k w.conns made),
      ),
    )

-- Marking a closed connection as idle, while the shard is not draining, puts it into the set of
-- idle connections if it was in use when it was closed; closing the idle connections leaves it there.
pub mark_idle-closed :
    (w : World) (c : ℕ)
    → IsTracked w
    → c < w.count
    → (w.conns c).closed ≡ true
    → (w.conns c).busy ≡ true
    → w.shard.drain ≡ false
    → (w' : World) × (mark_idle c w ≡ some w')
      × (w'.shard.all c ≡ false)
      × (w'.shard.idle c ≡ true)
      × (close_if_idle c w' ≡ some (nil_error, w'))
unfolding close_if_idle
mark_idle-closed w c t made shut busy lasting = (
  _,
  mark_idle-keeps w c made busy lasting,
  t.all_live c ∙ ground arith,
  rw (==_self c),
  ground arith,
)
