-- ===== src/Graceful/Listener/Calls.antt =====
-- graceful/listener/conn.go: the branches of each call, against the account of the shard.
use goji.Prelude.{
  update, ℕ, ◌+◌, ◌<◌, ◌≡◌, refl, sym, ap, subst, Bool, true, false, not, ◌&&◌, Option, some,
  ==_self, arith, Bool-cases, inl, inr,
}
use goji.Graceful.Listener.Shard
use goji.Graceful.Listener.Shard.{Set, Shard, track}
use goji.Graceful.Listener.Conn.{
  Mode, Conn, World, inner, is_manual, is_deadline, nil_error, Reply, delegated, done, replies,
  set_conn, shut, close, close_if_idle, mark_idle, use_conn, mark_in_use, read, set_read_deadline,
  disown,
}
use goji.Graceful.Listener.Counting.{live, live_count-update}
use goji.Graceful.Listener.Invariant.{
  done-succeeds, IsTracked, IsTrackedBut, IsTracked-IsTrackedBut, live-counted, IsTracked-retire,
  IsTracked-change,
}

-- A call does not panic, and keeps the account.
abbrev pub Goes : Option World → Type 0
Goes o = (w : World) × (o ≡ some w) × IsTracked w

abbrev pub Replies : Option (Reply × World) → Type 0
Replies o = (p : Reply × World) × (o ≡ some p) × IsTracked p.1

replies-Replies : (r : Reply) (o : Option World) → Goes o → Replies (replies r o)
replies-Replies r o (w, e, t) = ((r, w), ap (replies r) e, t)

module _ (w : World) (c : ℕ) (made : c < w.count) where
  pub shut-Goes : IsTrackedBut c w → live (w.conns c) ≡ true → Goes (shut c w)
  shut-Goes t h = (
    _,
    done-succeeds _ (live-counted w c t made h),
    IsTracked-retire w c t made
        (record (w.conns c) { closed = true; closes = (w.conns c).closes + 1 }) h refl,
  )

  close-gone :
      (w.conns c).disowned ≡ true
      → close c w
        ≡ some (delegated, set_conn c (record (w.conns c) { closes = (w.conns c).closes + 1 }) w)
  unfolding close
  close-gone h = rw h

  pub close-live :
      (w.conns c).disowned ≡ false
      → (w.conns c).closed ≡ false
      → close c w ≡ replies delegated (shut c w)
  unfolding close
  close-live h k = rw (h, k)

  pub disown-ours :
      (w.conns c).disowned ≡ false
      → disown c w
        ≡ replies nil_error (
            done (record (set_conn c (record (w.conns c) { disowned = true }) w) {
              shard = Shard.disown c w.shard;
            }))
  unfolding disown
  disown-ours h = rw h

  read-fresh :
      (m : Mode) (ok : Bool)
      → (w.conns c).disowned ≡ false
      → ((w.conns c).closed && ok) ≡ false
      → (not (is_manual m) && (not (w.conns c).busy && not (w.conns c).closed)) ≡ true
      → read m ok c w ≡ (inner, use_conn c w)
  unfolding read
  read-fresh m ok a b d = rw (a, b, d)

  abbrev pub freed : Conn
  freed = record (w.conns c) { busy = false }

  mark_idle-closes :
      (w.conns c).busy ≡ true
      → w.shard.drain ≡ true
      → live (w.conns c) ≡ true
      → mark_idle c w ≡ shut c (set_conn c freed w)
  unfolding mark_idle
  mark_idle-closes b d l = rw (b, d, l)

  mark_idle-dead :
      (w.conns c).busy ≡ true
      → w.shard.drain ≡ true
      → live (w.conns c) ≡ false
      → mark_idle c w ≡ some (set_conn c freed w)
  unfolding mark_idle
  mark_idle-dead b d l = rw (b, d, l)

  pub mark_idle-keeps :
      (w.conns c).busy ≡ true
      → w.shard.drain ≡ false
      → mark_idle c w
        ≡ some (record (set_conn c freed w) {
          shard = record w.shard { idle = update c true w.shard.idle };
        })
  unfolding mark_idle
  mark_idle-keeps b d = rw (b, d)

module _ (w : World) (c : ℕ) (t : IsTracked w) (made : c < w.count) where
  pub close-Replies : Replies (close c w)
  unfolding close
  close-Replies = elim (Bool-cases (w.conns c).disowned) [
    | inl gone ↦ (
      _,
      close-gone w c made gone,
      IsTracked-change w c t made (record (w.conns c) { closes = (w.conns c).closes + 1 })
          w.shard.idle refl (λ j e. refl) (t.idle_free c made),
    )
    | inr ours ↦ elim (Bool-cases (w.conns c).closed) [
      | inl shut_already ↦ rw (ours, shut_already) (_, refl, t)
      | inr still ↦ subst Replies (sym (close-live w c made ours still)) (
          replies-Replies delegated (shut c w)
            (shut-Goes w c made (IsTracked-IsTrackedBut c w t) (rw (ours, still))))
    ]
  ]

  pub close_if_idle-Replies : Replies (close_if_idle c w)
  unfolding close_if_idle
  close_if_idle-Replies =
      elim (Bool-cases
        (not (w.conns c).busy && (not (w.conns c).closed && not (w.conns c).disowned))) [
          | inl fit ↦ rw fit (
              replies-Replies delegated (shut c w)
                (shut-Goes w c made (IsTracked-IsTrackedBut c w t) (ground arith)))
          | inr other ↦ rw other (_, refl, t)
        ]

  use_conn-IsTracked : IsTracked (use_conn c w)
  use_conn-IsTracked =
      IsTracked-change w c t made (record (w.conns c) { busy = true }) (update c false w.shard.idle)
        refl (λ j e. rw e) (λ l. rw (==_self c))

  pub mark_in_use-IsTracked : IsTracked (mark_in_use c w)
  unfolding mark_in_use
  mark_in_use-IsTracked =
      elim (Bool-cases
        (not (w.conns c).busy && (not (w.conns c).closed && not (w.conns c).disowned))) [
          | inl fit ↦ rw fit use_conn-IsTracked
          | inr other ↦ rw other t
        ]

  read_use :
      (m : Mode) (ok : Bool)
      → (w.conns c).disowned ≡ false
      → ((w.conns c).closed && ok) ≡ false
      → (not (is_manual m) && (not (w.conns c).busy && not (w.conns c).closed)) ≡ true
      → IsTracked (read m ok c w).1
  read_use m ok ours fine fresh =
      subst (λ p. IsTracked p.1) (sym (read-fresh w c made m ok ours fine fresh)) use_conn-IsTracked

  -- The connection was freed, and is not in `idle` yet.
  but_freed : IsTrackedBut c (set_conn c (freed w c made) w)
  but_freed = record {
    all_live = λ j. ground (arith, t.all_live j);
    idle_free = λ j. ground (arith, t.idle_free j);
    counted = omega (arith, t.counted, live_count-update w.count c (freed w c made) w.conns made);
  }

  pub read-IsTracked : (m : Mode) (ok : Bool) → IsTracked (read m ok c w).1
  unfolding read
  read-IsTracked m ok = elim (Bool-cases (w.conns c).disowned) [
    | inl gone ↦ rw gone t
    | inr ours ↦ elim (Bool-cases ((w.conns c).closed && ok)) [
      | inl race ↦ rw (ours, race) t
      | inr fine ↦
          elim (Bool-cases
            (not (is_manual m) && (not (w.conns c).busy && not (w.conns c).closed))) [
              | inl fresh ↦ read_use m ok ours fine fresh
              | inr same ↦ rw (ours, fine, same) t
            ]
    ]
  ]

  pub mark_idle-Goes : Goes (mark_idle c w)
  unfolding mark_idle
  mark_idle-Goes = elim (Bool-cases (w.conns c).busy) [
    | inr free ↦ rw free (_, refl, t)
    | inl busy ↦ elim (Bool-cases w.shard.drain) [
      | inr lasting ↦ (
        _,
        mark_idle-keeps w c made busy lasting,
        IsTracked-change w c t made (freed w c made) (update c true w.shard.idle) refl (λ j e. rw e)
            (λ l. rw (==_self c)),
      )
      | inl draining ↦ elim (Bool-cases (live (w.conns c))) [
        | inr dead ↦ (
          _,
          mark_idle-dead w c made busy draining dead,
          IsTracked-change w c t made (freed w c made) w.shard.idle refl (λ j e. refl) (λ l. cc),
        )
        | inl alive ↦
            let w' = set_conn c (freed w c made) w in
            subst Goes (sym (mark_idle-closes w c made busy draining alive))
              (shut-Goes w' c made but_freed (rw (==_self c) alive))
      ]
    ]
  ]

  pub disown-Replies : (w.conns c).closed ≡ false → Replies (disown c w)
  unfolding disown
  disown-Replies still = elim (Bool-cases (w.conns c).disowned) [
    | inl gone ↦ rw gone (_, refl, t)
    | inr ours ↦
        let alive : live (w.conns c) ≡ true = rw (still, ours) in
        let but = IsTracked-IsTrackedBut c w t in
        subst Replies (sym (disown-ours w c made ours)) (
          replies-Replies nil_error _ (
            _,
            done-succeeds _ (live-counted w c but made alive),
            IsTracked-retire w c but made (record (w.conns c) { disowned = true }) alive
                (ground arith),
          ))
  ]

  pub set_read_deadline-Goes : (m : Mode) → Goes (set_read_deadline m c w)
  unfolding set_read_deadline
  set_read_deadline-Goes m = elim (Bool-cases (not (w.conns c).disowned && is_deadline m)) [
    | inl frees ↦ rw frees mark_idle-Goes
    | inr other ↦ rw other (w, refl, t)
  ]
