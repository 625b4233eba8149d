-- ===== src/Graceful/Listener/Closing.antt =====
-- graceful/listener/shard.go: `closeConns` without any other calls between.
use goji.Prelude.{
  ℕ, zero, suc, ◌≤◌, ◌<◌, ◌≡◌, refl, ◌∙◌, ap, Bool, true, false, Option, none, some, List, [], ◌∷◌,
  map, arith, Bool-cases, inl, inr, All, ◌==◌, ==_iff, ◌⊎◌,
}
use goji.Graceful.Listener.Shard.{Set}
use goji.Graceful.Listener.Conn.{Mode, manual, World, world_of, and_then, close, close_if_idle}
use goji.Graceful.Listener.CloseConns.{snapshot, members, close_each, close_conns}
use goji.Graceful.Listener.Invariant.{IsTracked}
use goji.Graceful.Listener.History.{Call, closes, closes_if_idle, call, run, AllFit}
use goji.Graceful.Listener.After.{After, Occurs, After-some}
use goji.Graceful.Listener.Drain.{Draining, drain-Settled, drain_all-wg}

-- The calls that the loop makes.
abbrev closer : Bool → ℕ → Call
closer true c = closes c
closer false c = closes_if_idle c

and_then-ext :
    (o : Option World) (f g : World → Option World)
    → ((w : World) → f w ≡ g w)
    → and_then o f ≡ and_then o g
and_then-ext none f g h = refl
and_then-ext (some w) f g h = h w

close_each-run :
    (m : Mode) (all : Bool) (cs : List ℕ) (w : World)
    → close_each all cs w ≡ run m (map (closer all) cs) w
unfolding close_each run call
close_each-run m all [] w = refl
close_each-run m true (c ∷ cs) w =
    and_then-ext (world_of (close c w)) (close_each true cs) (run m (map (closer true) cs))
      (close_each-run m true cs)
close_each-run m false (c ∷ cs) w =
    and_then-ext (world_of (close_if_idle c w)) (close_each false cs)
      (run m (map (closer false) cs)) (close_each-run m false cs)

Occurs-members :
    (all : Bool) (n c : ℕ) (s : Set)
    → c < n
    → s c ≡ true
    → Occurs (closer all c) (map (closer all) (members n s))
unfolding members
Occurs-members all zero c s lt h = absurd (omega arith)
Occurs-members all (suc n) c s lt h = elim (Bool-cases (n == c)) [
  | inl same ↦ let e : n ≡ c = (==_iff n c).0 same in rw (ap s e ∙ h) (inl (ap (closer all) e))
  | inr other ↦ below (Bool-cases (s n)) (Occurs-members all n c s (ground arith) h)
]
  where
    below :
        (s n ≡ true) ⊎ (s n ≡ false)
        → Occurs (closer all c) (map (closer all) (members n s))
        → Occurs (closer all c) (map (closer all) (members (suc n) s))
    below (inl held) o = rw held (inr o)
    below (inr free) o = rw free o

members-below : (n k : ℕ) (s : Set) → n ≤ k → All (λ c. c < k) (members n s)
unfolding members
members-below zero k s h = tt
members-below (suc n) k s h = elim (Bool-cases (s n)) [
  | inl held ↦ rw held (omega arith, members-below n k s (omega arith))
  | inr free ↦ rw free (members-below n k s (omega arith))
]

closer-count :
    (m : Mode) (all : Bool) (c n : ℕ) (w : World)
    → n ≤ w.count
    → After (λ w'. n ≤ w'.count) (call m (closer all c) w)
unfolding call
closer-count m true c n w h = ground arith
closer-count m false c n w h = ground arith

closer-AllFit :
    (m : Mode) (all : Bool) (cs : List ℕ) (n : ℕ) (w : World)
    → n ≤ w.count
    → All (λ c. c < n) cs
    → AllFit m (map (closer all) cs) w
closer-AllFit m all [] n w h b = tt
closer-AllFit m true (c ∷ cs) n w h (b, bs) = (
  (omega arith),
  λ w' e.
      closer-AllFit m true cs n w'
        (After-some (λ v. n ≤ v.count) _ w' e (closer-count m true c n w h)) bs,
)
closer-AllFit m false (c ∷ cs) n w h (b, bs) = (
  (omega arith),
  λ w' e.
      closer-AllFit m false cs n w'
        (After-some (λ v. n ≤ v.count) _ w' e (closer-count m false c n w h)) bs,
)

-- `closeConns(false, true)` and `closeConns(true, true)` on a shard whose account is right, with no
-- other call between.
-- Neither panics. After the first every connection that the shard manages is in use; after the second
-- it manages none, and its wait group is at 0.
pub close_conns-drains :
    (w : World)
    → IsTracked w
    → ((w' : World) × (close_conns false true w ≡ some w')
        × IsTracked w'
        × ((c : ℕ) → Draining c w'))
      × ((w' : World) × (close_conns true true w ≡ some w') × (w'.shard.wg ≡ 0))
unfolding close_conns snapshot
close_conns-drains w t =
    let start = (snapshot false true w).1 in
    let idle = members w.count w.shard.idle in
    let all = members w.count w.shard.all in
    let (w1, e1, t1, settled) =
      drain-Settled manual (map (closer false) idle) w t
        (closer-AllFit manual false idle w.count start (omega arith)
          (members-below w.count w.count w.shard.idle (omega arith)))
        (λ c lt h. Occurs-members false w.count c w.shard.idle lt h) in
    let (w2, e2, zero_left, gone) =
      drain_all-wg manual (map (closer true) all) w t
        (closer-AllFit manual true all w.count start (omega arith)
          (members-below w.count w.count w.shard.all (omega arith)))
        (λ c lt h. Occurs-members true w.count c w.shard.all lt h) in
    (
      (w1, close_each-run manual false idle start ∙ e1, t1, settled),
      (w2, close_each-run manual true all start ∙ e2, zero_left),
    )
