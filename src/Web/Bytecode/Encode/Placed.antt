-- ===== src/Web/Bytecode/Encode/Placed.antt =====
-- web/bytecode_compiler.go: the unresolved indices of an encoded trie.
use goji.Prelude.{
  ℕ, zero, suc, ◌+◌, ◌≤◌, ◌≡◌, refl, ◌∙◌, ap₂, Bool, true, false, none, some, List, [], ◌∷◌, ◌++◌,
  map, length, arith, All, All-append,
}
use mathlib.Core.List.{map-append}
use goji.Prelude.Bytes.{Bytes}
use goji.Web.Bytecode.{Index, plus, at, minus_one, State, StateMachine, holds_value}
use goji.Web.Bytecode.Trie.{
  trie, Segments, no_segments, segments, TrieSegment, segment, Tries, no_tries, tries,
}
use goji.Web.Bytecode.Encode.{
  exit_state, continuation, bump, resolve_index, resolve, mark_fail, main_length, main_part,
  sub_part, assemble, encode, encode_segments, encode_segment, encode_children,
}

abbrev is_at : Index → Bool
is_at (at n) = true
is_at minus_one = false

-- A state whose index is a value has one.
abbrev Valued : State → Type 0
Valued s = holds_value s ≡ true → is_at s.i ≡ true

abbrev Placed : State → Type 0
Placed s = is_at s.i ≡ true

is_at-plus : (j : Index) (v : ℕ) → is_at (plus j (suc v)) ≡ true
is_at-plus (at n) v = refl
is_at-plus minus_one v = refl

is_at-resolve_index : (x k : ℕ) (j : Index) → is_at (resolve_index x k j) ≡ true
is_at-resolve_index x k (at n) = refl
is_at-resolve_index x k minus_one = refl

bump-Placed : (v : ℕ) (s : State) → Valued s → Placed (bump (suc v) s)
bump-Placed v s h = ground (arith, h, is_at-plus s.i v)

resolve-Placed : (x k : ℕ) (s : State) → Valued s → Placed (resolve x k s)
resolve-Placed x k s h = ground (arith, h, is_at-resolve_index x k s.i)

mark_index-at :
    (x : ℕ) (j : Index) (s : State) → s.i ≡ j → is_at j ≡ true → mark_fail s ≡ resolve x 0 s
mark_index-at x (at n) s e h = let e' : n + 0 ≡ n = omega arith in ground arith
mark_index-at x minus_one s e h = cc

pub map-mark_fail :
    (x : ℕ) (m : StateMachine) → All Placed m → map mark_fail m ≡ map (resolve x 0) m
map-mark_fail x [] h = refl
map-mark_fail x (s ∷ m) (h, hs) = ap₂ ◌∷◌ (mark_index-at x s.i s refl h) (map-mark_fail x m hs)

map-bump-Placed : (v : ℕ) (m : StateMachine) → 1 ≤ v → All Valued m → All Placed (map (bump v) m)
map-bump-Placed v [] p h = tt
map-bump-Placed zero (s ∷ m) p (h, hs) = absurd (omega arith)
map-bump-Placed (suc v) (s ∷ m) p (h, hs) = (bump-Placed v s h, map-bump-Placed (suc v) m p hs)

map-resolve-Placed : (x k : ℕ) (m : StateMachine) → All Valued m → All Placed (map (resolve x k) m)
map-resolve-Placed x k [] h = tt
map-resolve-Placed x k (s ∷ m) (h, hs) = (resolve-Placed x k s h, map-resolve-Placed x k m hs)

Placed-Valued : (m : StateMachine) → All Placed m → All Valued m
Placed-Valued [] h = tt
Placed-Valued (s ∷ m) (h, hs) = ((λ _. h), Placed-Valued m hs)

abbrev PairsValued : List (StateMachine × StateMachine) → Type 0
PairsValued [] = Unit
PairsValued ((m, s) ∷ ps) = (All Valued m × All Valued s) × PairsValued ps

main_part-Placed :
    (off msl subl : ℕ) (ps : List (StateMachine × StateMachine))
    → PairsValued ps
    → All Placed (main_part off msl subl ps)
unfolding main_part
main_part-Placed off msl subl [] h = tt
main_part-Placed off msl subl ((m, s) ∷ ps) h =
    All-append Placed (map (bump (off + msl + subl + 1)) m) _
      (map-bump-Placed (off + msl + subl + 1) m (omega arith) h.0.0)
      (main_part-Placed off msl (subl + length s) ps h.1)

sub_part-Placed :
    (off mlen msl : ℕ) (ps : List (StateMachine × StateMachine))
    → PairsValued ps
    → All Placed (sub_part off mlen msl ps)
unfolding sub_part
sub_part-Placed off mlen msl [] h = tt
sub_part-Placed off mlen msl ((m, s) ∷ ps) h =
    All-append Placed (map (resolve (off + (msl + length m)) (off + mlen)) s) _
      (map-resolve-Placed _ _ s h.0.1)
      (sub_part-Placed off (mlen + length s) (msl + length m) ps h.1)

assemble-Valued :
    (off : ℕ) (ps : List (StateMachine × StateMachine))
    → PairsValued ps
    → All Valued (assemble off ps)
unfolding assemble
assemble-Valued off ps h =
    All-append Valued (main_part off (main_length ps) 0 ps) _
      (Placed-Valued _ (main_part-Placed off (main_length ps) 0 ps h))
      ((λ e. cc), Placed-Valued _ (sub_part-Placed off (main_length ps + 1) 0 ps h))

continuation-Valued : (p : Bytes) → All Valued (continuation p)
unfolding continuation
continuation-Valued [] = tt
continuation-Valued (a ∷ []) = tt
continuation-Valued (a ∷ b ∷ []) = tt
continuation-Valued (a ∷ b ∷ c ∷ []) = tt
continuation-Valued (a ∷ b ∷ c ∷ d ∷ p) = ((λ e. cc), continuation-Valued (d ∷ p))

mutual
  unfolding encode_segments encode_segment encode_children encode

  children-Valued :
      (ts : Tries) (dp pos : ℕ)
      → All Valued (encode_children ts dp pos).0 × All Valued (encode_children ts dp pos).1
  children-Valued no_tries dp pos = (tt, tt)
  children-Valued (tries (trie p segs) ts) dp pos =
      let cont = continuation p in
      let ps = encode_segments segs (dp + length p) in
      let sub = assemble (pos + length cont) ps in
      let (h, h') = children-Valued ts dp (pos + (length cont + length sub)) in
      (
        ((λ e. cc), h),
        All-append Valued cont _ (continuation-Valued p) (
            All-append Valued sub _
              (assemble-Valued (pos + length cont) ps (segments-Valued segs (dp + length p))) h'),
      )

  segment-Valued :
      (ts : TrieSegment) (dp : ℕ)
      → All Valued (encode_segment ts dp 0).0 × All Valued (encode_segment ts dp 0).1
  segment-Valued (segment none ts) dp =
      let (h, h') = children-Valued ts dp 0 in (((λ e. refl), h), h')
  segment-Valued (segment (some k) ts) dp =
      let (h, h') = children-Valued ts dp 0 in (((λ e. refl), ((λ e. refl), h)), h')

  segments-Valued : (segs : Segments) (dp : ℕ) → PairsValued (encode_segments segs dp)
  segments-Valued no_segments dp = tt
  segments-Valued (segments ts segs) dp = (segment-Valued ts dp, segments-Valued segs dp)

-- Marking the states that fail is resolving the others in place.
pub mark_fail-assemble :
    (x dp : ℕ) (segs : Segments)
    → let ps = encode_segments segs dp in
      map mark_fail (assemble 0 ps)
      ≡ map (resolve x 0) (main_part 0 (main_length ps) 0 ps)
        ++ mark_fail (exit_state minus_one)
          ∷ map (resolve x 0) (sub_part 0 (main_length ps + 1) 0 ps)
unfolding assemble
mark_fail-assemble x dp segs =
    let ps = encode_segments segs dp in
    let h = segments-Valued segs dp in
    let main = main_part 0 (main_length ps) 0 ps in
    let sub = sub_part 0 (main_length ps + 1) 0 ps in
    map-append mark_fail main (exit_state minus_one ∷ sub)
    ∙ ap₂ (λ a b. a ++ mark_fail (exit_state minus_one) ∷ b)
        (map-mark_fail x main (main_part-Placed 0 (main_length ps) 0 ps h))
        (map-mark_fail x sub (sub_part-Placed 0 (main_length ps + 1) 0 ps h))
