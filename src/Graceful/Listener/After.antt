-- ===== src/Graceful/Listener/After.antt =====
-- graceful/listener: what holds after a history, by what each call keeps.
use goji.Prelude.{◌≡◌, sym, subst, true, Option, none, some, List, [], ◌∷◌, arith, inl, inr, ◌⊎◌}
use goji.Graceful.Listener.Conn.{Mode, World, and_then}
use goji.Graceful.Listener.History.{
  Call, accepts, reads, closes, closes_if_idle, marks_idle, marks_in_use, sets_read_deadline,
  disowns, snapshots, call, run,
}

abbrev pub After : (World → Type 0) → Option World → Type 0
After P none = Unit
After P (some w) = P w

-- `x` is one of the calls.
abbrev pub Occurs : Call → List Call → Type 0
Occurs x [] = ⊥
Occurs x (y ∷ ys) = (y ≡ x) ⊎ Occurs x ys

After-and_then :
    (P Q : World → Type 0) (o : Option World) (f : World → Option World)
    → ((w : World) → P w → After Q (f w))
    → After P o
    → After Q (and_then o f)
After-and_then P Q none f h k = tt
After-and_then P Q (some w) f h k = h w k

-- The shard drains.
abbrev pub IsDraining : World → Type 0
IsDraining w = w.shard.drain ≡ true

pub call-IsDraining :
    (m : Mode) (x : Call) (w : World) → IsDraining w → After IsDraining (call m x w)
unfolding call
call-IsDraining m accepts w d = ground arith
call-IsDraining m (reads ok k) w d = ground arith
call-IsDraining m (closes k) w d = ground arith
call-IsDraining m (closes_if_idle k) w d = ground arith
call-IsDraining m (marks_idle k) w d = ground arith
call-IsDraining m (marks_in_use k) w d = ground arith
call-IsDraining m (sets_read_deadline k) w d = ground arith
call-IsDraining m (disowns k) w d = ground arith
call-IsDraining m (snapshots all drain) w d = ground arith

module _ (m : Mode) (P : World → Type 0)
    (kept : (x : Call) (w : World) → P w → After P (call m x w)) where
  pub run-kept : (xs : List Call) (w : World) → P w → After P (run m xs w)
  unfolding run
  run-kept [] w h = h
  run-kept (x ∷ xs) w h = After-and_then P P (call m x w) (run m xs) (run-kept xs) (kept x w h)

  -- A call that brings the property about in a draining shard is made.
  pub run-Occurs :
      (y : Call)
      → ((w : World) → IsDraining w → After P (call m y w))
      → (xs : List Call) (w : World) → IsDraining w
      → Occurs y xs
      → After P (run m xs w)
  unfolding run
  run-Occurs y brings [] w d o = absurd o
  run-Occurs y brings (x ∷ xs) w d (inl here) =
      After-and_then P P (call m x w) (run m xs) (run-kept xs)
        (subst (λ z. After P (call m z w)) (sym here) (brings w d))
  run-Occurs y brings (x ∷ xs) w d (inr later) =
      After-and_then IsDraining P (call m x w) (run m xs)
        (λ w' d'. run-Occurs y brings xs w' d' later) (call-IsDraining m x w d)

pub After-some : (P : World → Type 0) (o : Option World) (w : World) → o ≡ some w → After P o → P w
After-some P o w e h = subst (After P) e h
