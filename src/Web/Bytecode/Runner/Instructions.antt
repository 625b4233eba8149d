-- ===== src/Web/Bytecode/Runner/Instructions.antt =====
-- web/bytecode_runner.go: one round of the loop at each kind of state that the encoder writes.
use goji.Prelude.{
  ℕ, suc, ◌+◌, ◌≤◌, ◌≡◌, refl, some, List, [], ◌∷◌, ◌++◌, length, take, drop, get_elem?,
  if◌then◌else◌, arith, le→leb, subst, length-append, get_elem?-append,
}
use mathlib.Core.List.{append_assoc}
use goji.Prelude.Bytes.{Bytes, has_prefix}
use goji.Web.Method.{Method}
use goji.Web.Route.{Request, Route}
use goji.Web.Bytecode.{at, minus_one, StateMachine}
use goji.Web.Bytecode.Encode.{
  exit_state, mark_fail, copy_chunk, copied, set_cursor_state, route_state, child_state,
  chunk_state,
}
use goji.Web.Bytecode.Runner.{running, chunk_matches, step}
use goji.Web.Bytecode.Runner.Reach.{missed, visit}

-- The comparison of a chunk is the test that the path goes on with the chunk's bytes.
pub chunk_matches-copy :
    (q s : Bytes) → chunk_matches (copied q) (copy_chunk q) s ≡ has_prefix s (take 3 q)
chunk_matches-copy [] s = ground arith
chunk_matches-copy (a ∷ []) [] = refl
chunk_matches-copy (a ∷ []) (x ∷ s) = ground arith
chunk_matches-copy (a ∷ b ∷ []) [] = refl
chunk_matches-copy (a ∷ b ∷ []) (x ∷ []) = ground arith
chunk_matches-copy (a ∷ b ∷ []) (x ∷ y ∷ s) = ground arith
chunk_matches-copy (a ∷ b ∷ c ∷ q) [] = refl
chunk_matches-copy (a ∷ b ∷ c ∷ q) (x ∷ []) = ground arith
chunk_matches-copy (a ∷ b ∷ c ∷ q) (x ∷ y ∷ []) = ground arith
chunk_matches-copy (a ∷ b ∷ c ∷ q) (x ∷ y ∷ z ∷ s) = ground arith

-- The machine holds the block at the address `a`.
abbrev pub Holds : StateMachine → ℕ → StateMachine → Type 0
Holds sm a [] = Unit
Holds sm a (s ∷ b) = (get_elem? sm a ≡ some s) × Holds sm (a + 1) b

module _ (sm : StateMachine) where
  pub Holds-move : (a a' : ℕ) (b : StateMachine) → a ≡ a' → Holds sm a b → Holds sm a' b
  Holds-move a a' b e h = subst (λ n. Holds sm n b) e h

  pub Holds-left : (a : ℕ) (b b' : StateMachine) → Holds sm a (b ++ b') → Holds sm a b
  Holds-left a [] b' h = tt
  Holds-left a (s ∷ b) b' h = (h.0, Holds-left (a + 1) b b' h.1)

  pub Holds-right :
      (a : ℕ) (b b' : StateMachine) → Holds sm a (b ++ b') → Holds sm (a + length b) b'
  Holds-right a [] b' h = Holds-move a (a + 0) b' (omega arith) h
  Holds-right a (s ∷ b) b' h =
      Holds-move _ (a + suc (length b)) b' (omega arith) (Holds-right (a + 1) b b' h.1)

-- A machine holds itself at 0.
pub Holds-self : (pre b : StateMachine) → Holds (pre ++ b) (length pre) b
Holds-self pre [] = tt
Holds-self pre (s ∷ b) = (
  get_elem?-append pre s b,
  let e : length (pre ++ s ∷ []) ≡ length pre + 1 = omega (arith, length-append pre (s ∷ [])) in
      Holds-move _ _ _ b e (
        subst (λ m. Holds m (length (pre ++ s ∷ [])) b) (append_assoc pre (s ∷ []) b)
          (Holds-self (pre ++ s ∷ []) b)),
)

module _ {C H : Type 0} (sm : StateMachine) (routes : List (Route C H)) (r : Request) where
  module _ (u : ℕ) where
    pub step-set_cursor :
        (dp : ℕ) (p : Bytes) (ms : Method) (c : C)
        → get_elem? sm u ≡ some (set_cursor_state dp)
        → dp ≤ length r.path
        → step sm routes r (running u p ms c) ≡ running (u + 1) (drop dp r.path) ms c
    unfolding step
    step-set_cursor dp p ms c e h = rw (e, le→leb dp (length r.path) h)

    pub step-route :
        (k : ℕ) (p : Bytes) (ms : Method) (c : C)
        → get_elem? sm u ≡ some (route_state k)
        → step sm routes r (running u p ms c)
          ≡ visit routes r (k ∷ []) ms c (λ ms' c'. running (u + 1) p ms' c')
    unfolding step visit
    step-route k p ms c e = rw (e, chunk_matches-copy [] p)

    pub step-child :
        (q : Bytes) (j : ℕ) (p : Bytes) (ms : Method) (c : C)
        → get_elem? sm u ≡ some (child_state q (at j))
        → step sm routes r (running u p ms c) ≡ (
            if has_prefix p (take 3 q)
            then running j (drop (copied q) p) ms c
            else running (u + 1) p ms c)
    unfolding step
    step-child q j p ms c e = rw (e, chunk_matches-copy q p)

    pub step-chunk :
        (q : Bytes) (y : ℕ) (p : Bytes) (ms : Method) (c : C)
        → get_elem? sm u ≡ some (record (chunk_state q) { i = at y })
        → step sm routes r (running u p ms c) ≡ (
            if has_prefix p (take 3 q)
            then running (u + 1) (drop (copied q) p) ms c
            else running y p ms c)
    unfolding step
    step-chunk q y p ms c e = rw (e, chunk_matches-copy q p)

  -- The failing state ends the run.
  pub step-fail :
      (u : ℕ) (p : Bytes) (ms : Method) (c : C)
      → get_elem? sm u ≡ some (mark_fail (exit_state minus_one))
      → step sm routes r (running u p ms c) ≡ missed ms c
  unfolding step
  step-fail u p ms c e = rw (e, chunk_matches-copy [] p)
