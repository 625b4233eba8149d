-- ===== src/Graceful/Listener/Drain.antt =====
-- graceful/listener: the steps of Drain and DrainAll on a shard (closeConns in shard.go).
use goji.Prelude.{
  ℕ, zero, suc, ◌<◌, ◌≡◌, refl, sym, ◌∙◌, ap, true, false, not, ◌&&◌, some, List, arith, Bool-cases,
  inl, inr, ◌⊎◌, ltb,
}
use goji.Graceful.Listener.Conn.{Mode, Conn, World}
use goji.Graceful.Listener.CloseConns.{snapshot}
use goji.Graceful.Listener.Counting.{live, num, live_count}
use goji.Graceful.Listener.After.{After, Occurs, IsDraining, run-kept, run-Occurs, After-some}
use goji.Graceful.Listener.Invariant.{IsTracked}
use goji.Graceful.Listener.History.{
  Call, accepts, reads, closes, closes_if_idle, marks_idle, marks_in_use, sets_read_deadline,
  disowns, snapshots, call, run, AllFit, run-IsTracked,
}

-- The connection is not one that the shard manages and that is out of use.
abbrev pub Settled : ℕ → World → Type 0
Settled c w = (ltb c w.count && (live (w.conns c) && not (w.conns c).busy)) ≡ false

-- The shard is draining, and the connection is settled.
abbrev pub Draining : ℕ → World → Type 0
Draining c w = (w.shard.drain ≡ true) × Settled c w

-- While the shard drains, no call takes a settled connection out of use and keeps it.
pub call-Draining :
    (m : Mode) (x : Call) (w : World) (c : ℕ) → Draining c w → After (Draining c) (call m x w)
unfolding call
call-Draining m accepts w c (d, h) = ground arith
call-Draining m (reads ok k) w c (d, h) = ground arith
call-Draining m (closes k) w c (d, h) = ground arith
call-Draining m (closes_if_idle k) w c (d, h) = ground arith
call-Draining m (marks_idle k) w c (d, h) = ground arith
call-Draining m (marks_in_use k) w c (d, h) = ground arith
call-Draining m (sets_read_deadline k) w c (d, h) = ground arith
call-Draining m (disowns k) w c (d, h) = ground arith
call-Draining m (snapshots all drain) w c (d, h) = ground arith

pub call_closes_if_idle :
    (m : Mode) (w : World) (c : ℕ)
    → w.shard.drain ≡ true
    → After (Draining c) (call m (closes_if_idle c) w)
unfolding call
call_closes_if_idle m w c d = ground arith

-- A connection is settled, or the snapshot holds it.
pub idle-Settled :
    (w : World) (c : ℕ) → IsTracked w → (c < w.count × (w.shard.idle c ≡ true)) ⊎ Settled c w
idle-Settled w c t =
    elim (Bool-cases (ltb c w.count && (live (w.conns c) && not (w.conns c).busy))) [
      | inl free ↦ inl (ground arith, t.idle_free c (ground arith) (ground arith) ∙ ground arith)
      | inr other ↦ inr other
    ]

-- On a shard whose account is right: a drain begins with its snapshot, and then the connections in it are closed if they are idle,
-- in any order and with any other calls between (`Accept`, reads, calls of `MarkIdle` and so on) that
-- disown no closed connection. Nothing panics, and afterwards every connection that the shard still
-- manages is in use, the shard drains, and its account is right; so nothing idle is left behind,
-- however the calls are interleaved.
pub drain-Settled :
    (m : Mode) (xs : List Call) (w : World)
    → IsTracked w
    → AllFit m xs (snapshot false true w).1
    → ((c : ℕ) → c < w.count → (snapshot false true w).0 c ≡ true → Occurs (closes_if_idle c) xs)
    → (w' : World) × (run m xs (snapshot false true w).1 ≡ some w')
      × IsTracked w'
      × ((c : ℕ) → Draining c w')
unfolding snapshot
drain-Settled m xs w t fits closing =
    let start = (snapshot false true w).1 in
    let t' : IsTracked start = record {
      all_live = t.all_live;
      idle_free = t.idle_free;
      counted = t.counted;
    } in
    let d : IsDraining start = ground arith in
    let (w', e, tracked) = run-IsTracked m xs start t' fits in
    (
      w',
      e,
      tracked,
      λ c. After-some (Draining c) (run m xs start) w' e (elim (idle-Settled w c t) [
        | inl (lt, idle) ↦
            run-Occurs m (Draining c) (λ x w'' h. call-Draining m x w'' c h) (closes_if_idle c)
              (λ w'' d'. call_closes_if_idle m w'' c d') xs start d (closing c lt idle)
        | inr settled ↦
            run-kept m (Draining c) (λ x w'' h. call-Draining m x w'' c h) xs start (d, settled)
      ]),
    )

-- A connection that the shard does not manage any more, or that is not made yet.
abbrev pub Gone : ℕ → World → Type 0
Gone c w = (w.shard.drain ≡ true) × ((ltb c w.count && live (w.conns c)) ≡ false)

call-Gone : (m : Mode) (x : Call) (w : World) (c : ℕ) → Gone c w → After (Gone c) (call m x w)
unfolding call
call-Gone m accepts w c (d, h) = ground arith
call-Gone m (reads ok k) w c (d, h) = ground arith
call-Gone m (closes k) w c (d, h) = ground arith
call-Gone m (closes_if_idle k) w c (d, h) = ground arith
call-Gone m (marks_idle k) w c (d, h) = ground arith
call-Gone m (marks_in_use k) w c (d, h) = ground arith
call-Gone m (sets_read_deadline k) w c (d, h) = ground arith
call-Gone m (disowns k) w c (d, h) = ground arith
call-Gone m (snapshots all drain) w c (d, h) = ground arith

call_closes : (m : Mode) (w : World) (c : ℕ) → IsDraining w → After (Gone c) (call m (closes c) w)
unfolding call
call_closes m w c d = ground arith

all-Gone :
    (w : World) (c : ℕ)
    → IsTracked w
    → (c < w.count × (w.shard.all c ≡ true)) ⊎ ((ltb c w.count && live (w.conns c)) ≡ false)
all-Gone w c t = elim (Bool-cases (w.shard.all c)) [
  | inl in_all ↦ inl (ground (arith, t.all_live c), in_all)
  | inr other ↦ inr (sym (t.all_live c) ∙ other)
]

live_count-none :
    (n : ℕ) (f : ℕ → Conn) → ((c : ℕ) → c < n → live (f c) ≡ false) → live_count n f ≡ 0
unfolding live_count
live_count-none zero f h = refl
live_count-none (suc n) f h =
    omega (arith, ap num (h n (omega arith)), live_count-none n f (λ c lt. h c (omega arith)))

-- `DrainAll` on a shard whose account is right: after its snapshot every connection in it is closed, in any order and with
-- any other calls between that disown no closed connection. Nothing panics, and afterwards the shard
-- manages no connection, and its wait group is at 0, so that `Wait` returns.
pub drain_all-wg :
    (m : Mode) (xs : List Call) (w : World)
    → IsTracked w
    → AllFit m xs (snapshot true true w).1
    → ((c : ℕ) → c < w.count → (snapshot true true w).0 c ≡ true → Occurs (closes c) xs)
    → (w' : World) × (run m xs (snapshot true true w).1 ≡ some w')
      × (w'.shard.wg ≡ 0)
      × ((c : ℕ) → (ltb c w'.count && live (w'.conns c)) ≡ false)
unfolding snapshot
drain_all-wg m xs w t fits closing =
    let start = (snapshot true true w).1 in
    let t' : IsTracked start = record {
      all_live = t.all_live;
      idle_free = t.idle_free;
      counted = t.counted;
    } in
    let d : IsDraining start = ground arith in
    let (w', e, tracked) = run-IsTracked m xs start t' fits in
    let kept = λ (c : ℕ) (x : Call) (v : World) (h : Gone c v). call-Gone m x v c h in
    let gone : (c : ℕ) → Gone c w' = λ c.
      After-some (Gone c) (run m xs start) w' e (elim (all-Gone w c t) [
        | inl (lt, held) ↦
            run-Occurs m (Gone c) (kept c) (closes c) (λ v d'. call_closes m v c d') xs start d
              (closing c lt held)
        | inr gone ↦ run-kept m (Gone c) (kept c) xs start (d, gone)
      ]) in
    (
      w',
      e,
      tracked.counted ∙ live_count-none w'.count w'.conns (λ c lt. ground (arith, lt, (gone c).1)),
      λ c. (gone c).1,
    )
