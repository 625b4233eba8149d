-- ===== src/Web/Bytecode/Encode/Relocate.antt =====
-- web/bytecode_compiler.go: moving an encoded block to another place.
use goji.Prelude.{
  ℕ, zero, suc, ◌+◌, ◌≤◌, ◌≡◌, refl, ap, ap₂, List, [], ◌∷◌, map, length, arith, length-append,
  length-map,
}
use goji.Web.Bytecode.{Index, at, minus_one, State, StateMachine, plus}
use goji.Web.Bytecode.Encode.{
  exit_state, bump, resolve_index, resolve, main_length, main_part, sub_part, assemble,
}

plus-resolve :
    (x k v v' : ℕ) (j : Index) → 1 ≤ v → v + k ≡ v' → resolve_index x k (plus j v) ≡ plus j v'
plus-resolve x k v v' (at n) h e = ap at (omega arith)
plus-resolve x k (suc v) (suc v') minus_one h e = ap at (omega arith)
plus-resolve x k zero v' minus_one h e = absurd (omega arith)
plus-resolve x k (suc v) zero minus_one h e = absurd (omega arith)

resolve_index-twice :
    (x k y v y' v' : ℕ) (j : Index)
    → y + k ≡ y'
    → v + k ≡ v'
    → resolve_index x k (resolve_index y v j) ≡ resolve_index y' v' j
resolve_index-twice x k y v y' v' (at n) e e' = ap at (omega arith)
resolve_index-twice x k y v y' v' minus_one e e' = ap at e

resolve-bump : (x k v v' : ℕ) (s : State) → 1 ≤ v → v + k ≡ v' → resolve x k (bump v s) ≡ bump v' s
resolve-bump x k v v' s h e = ground (arith, plus-resolve x k v v' s.i)

resolve-resolve :
    (x k y v y' v' : ℕ) (s : State)
    → y + k ≡ y'
    → v + k ≡ v'
    → resolve x k (resolve y v s) ≡ resolve y' v' s
resolve-resolve x k y v y' v' s e e' = ground (arith, resolve_index-twice x k y v y' v' s.i)

pub map-resolve-bump :
    (x k v v' : ℕ) (m : StateMachine)
    → 1 ≤ v
    → v + k ≡ v'
    → map (resolve x k) (map (bump v) m) ≡ map (bump v') m
map-resolve-bump x k v v' [] h e = refl
map-resolve-bump x k v v' (s ∷ m) h e =
    ap₂ ◌∷◌ (resolve-bump x k v v' s h e) (map-resolve-bump x k v v' m h e)

pub map-resolve-resolve :
    (x k y v y' v' : ℕ) (m : StateMachine)
    → y + k ≡ y'
    → v + k ≡ v'
    → map (resolve x k) (map (resolve y v) m) ≡ map (resolve y' v') m
map-resolve-resolve x k y v y' v' [] e e' = refl
map-resolve-resolve x k y v y' v' (s ∷ m) e e' =
    ap₂ ◌∷◌ (resolve-resolve x k y v y' v' s e e') (map-resolve-resolve x k y v y' v' m e e')

-- The number of states in both parts of the encoded segments.
unfoldable pub pairs_length : List (StateMachine × StateMachine) → ℕ
pairs_length [] = 0
pairs_length ((m, s) ∷ rest) = length m + length s + pairs_length rest

pub length-main_part :
    (off msl subl : ℕ) (ps : List (StateMachine × StateMachine))
    → length (main_part off msl subl ps) ≡ main_length ps
unfolding main_part main_length
length-main_part off msl subl [] = refl
length-main_part off msl subl ((m, s) ∷ ps) = omega (
  arith,
  length-append (map (bump (off + msl + subl + 1)) m) (main_part off msl (subl + length s) ps),
  length-map (bump (off + msl + subl + 1)) m,
  length-main_part off msl (subl + length s) ps,
)

pub length-parts :
    (off msl subl mlen msl' : ℕ) (ps : List (StateMachine × StateMachine))
    → length (main_part off msl subl ps) + length (sub_part off mlen msl' ps) ≡ pairs_length ps
unfolding main_part sub_part pairs_length
length-parts off msl subl mlen msl' [] = omega arith
length-parts off msl subl mlen msl' ((m, s) ∷ ps) = omega (
  arith,
  length-append (map (bump (off + msl + subl + 1)) m) (main_part off msl (subl + length s) ps),
  length-map (bump (off + msl + subl + 1)) m,
  length-append (map (resolve (off + (msl' + length m)) (off + mlen)) s)
      (sub_part off (mlen + length s) (msl' + length m) ps),
  length-map (resolve (off + (msl' + length m)) (off + mlen)) s,
  length-parts off msl (subl + length s) (mlen + length s) (msl' + length m) ps,
)

pub length-assemble :
    (off : ℕ) (ps : List (StateMachine × StateMachine))
    → length (assemble off ps) ≡ pairs_length ps + 1
unfolding assemble
length-assemble off ps = omega (
  arith,
  length-append (main_part off (main_length ps) 0 ps)
      (exit_state minus_one ∷ sub_part off (main_length ps + 1) 0 ps),
  length-parts off (main_length ps) 0 (main_length ps + 1) 0 ps,
)
