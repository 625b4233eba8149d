-- ===== src/Web/Bytecode/Encode/Layout.antt =====
-- web/bytecode_compiler.go: where the parts of an encoded trie stand in the machine that holds it.
use goji.Prelude.{
  ℕ, ◌+◌, ◌≡◌, refl, subst, some, List, ◌∷◌, ◌++◌, map, length, get_elem?, arith, length-map,
}
use mathlib.Core.List.{map-append}
use goji.Web.Bytecode.{at, minus_one, State, StateMachine}
use goji.Web.Bytecode.Encode.{exit_state, bump, resolve, main_length, main_part, sub_part, assemble}
use goji.Web.Bytecode.Encode.Relocate.{map-resolve-bump, map-resolve-resolve, length-main_part}
use goji.Web.Bytecode.Runner.Instructions.{Holds, Holds-move, Holds-left, Holds-right}

module _ (sm : StateMachine) where
  -- Two blocks under a map.
  pub Holds-map :
      (f : State → State) (a a' n : ℕ) (b b' : StateMachine)
      → Holds sm a (map f (b ++ b'))
      → length b ≡ n
      → a + n ≡ a'
      → Holds sm a (map f b) × Holds sm a' (map f b')
  Holds-map f a a' n b b' h e e' =
      let h' : Holds sm a (map f b ++ map f b') = subst (Holds sm a) (map-append f b b') h in
      (
        Holds-left sm a (map f b) (map f b') h',
        Holds-move sm _ a' (map f b') (omega (arith, length-map f b))
            (Holds-right sm a (map f b) (map f b') h'),
      )

  -- The three parts of a trie's machine.
  pub Holds-assemble :
      (x k off a : ℕ) (ps : List (StateMachine × StateMachine))
      → Holds sm a (map (resolve x k) (assemble off ps))
      → Holds sm a (map (resolve x k) (main_part off (main_length ps) 0 ps))
        × (get_elem? sm (a + main_length ps) ≡ some (exit_state (at x)))
        × Holds sm
            (a + main_length ps + 1)
            (map (resolve x k) (sub_part off (main_length ps + 1) 0 ps))
  unfolding assemble
  Holds-assemble x k off a ps h =
      let (main, rest) =
        Holds-map (resolve x k) a (a + main_length ps) (main_length ps)
          (main_part off (main_length ps) 0 ps)
          (exit_state minus_one ∷ sub_part off (main_length ps + 1) 0 ps) h
          (length-main_part off (main_length ps) 0 ps) refl in
      (main, rest.0, rest.1)

  -- The first segment's two blocks, moved to their places, and what follows them.
  pub Holds-segment :
      (x k off msl subl mlen pos u v y : ℕ) (m s : StateMachine)
      (ps : List (StateMachine × StateMachine))
      → Holds sm u (map (resolve x k) (main_part off msl subl ((m, s) ∷ ps)))
      → Holds sm v (map (resolve x k) (sub_part off mlen pos ((m, s) ∷ ps)))
      → off + pos + k ≡ u
      → off + mlen + k ≡ v
      → msl + subl + 1 ≡ mlen
      → u + length m ≡ y
      → Holds sm u (map (bump v) m)
        × Holds sm v (map (resolve y v) s)
        × Holds sm y (map (resolve x k) (main_part off msl (subl + length s) ps))
        × Holds sm
            (v + length s)
            (map (resolve x k) (sub_part off (mlen + length s) (pos + length m) ps))
  unfolding main_part sub_part
  Holds-segment x k off msl subl mlen pos u v y m s ps hm hs eu ev el ey =
      let (m1, m2) =
        Holds-map (resolve x k) u y (length m) (map (bump (off + msl + subl + 1)) m)
          (main_part off msl (subl + length s) ps) hm (length-map (bump (off + msl + subl + 1)) m)
          ey in
      let (s1, s2) =
        Holds-map (resolve x k) v (v + length s) (length s)
          (map (resolve (off + (pos + length m)) (off + mlen)) s)
          (sub_part off (mlen + length s) (pos + length m) ps) hs
          (length-map (resolve (off + (pos + length m)) (off + mlen)) s) refl in
      (
        subst (Holds sm u)
            (map-resolve-bump x k (off + msl + subl + 1) v m (omega arith) (omega arith)) m1,
        subst (Holds sm v)
            (map-resolve-resolve x k (off + (pos + length m)) (off + mlen) y v s (omega arith)
              (omega arith))
            s1,
        m2,
        s2,
      )
