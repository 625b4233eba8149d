-- ===== src/Web/Bytecode/Trie/Prefixes.antt =====
-- web/bytecode_compiler.go: `commonPrefix`, and the path through a node under a prefix.
use goji.Prelude.{
  ℕ, ◌≤◌, ◌<◌, ◌≡◌, ◌≢◌, refl, sym, ap, ap₂, true, false, [], ◌∷◌, ◌++◌, length, take, drop, ◌==◌,
  if◌then◌else◌, arith, Bool-cases, ◌⊎◌, inl, inr,
}
use goji.Prelude.Bytes.{Bytes, has_prefix}
use goji.Web.Bytecode.Trie.{Trie, trie, Tries, no_tries, tries, with_prefix, common_prefix}
use goji.Web.Bytecode.Walk.{walk, walk_children}
use goji.Web.Bytecode.Trie.Hits.{}

pub walk_children-with_prefix :
    (p s : Bytes) (t : Trie) (ts : Tries)
    → walk_children (tries (with_prefix p t) ts) s ≡ (
        if has_prefix s (take 3 p)
        then (if has_prefix s p then walk t (drop (length p) s) else [])
        else walk_children ts s)
unfolding walk walk_children
walk_children-with_prefix p s (trie _ segs) ts = refl

-- The common prefix of two texts, the first beginning with `a`: empty, or it begins with `a` too.
pub common_prefix-cases :
    (p q : Bytes) (a b : ℕ)
    → ((length (common_prefix (a ∷ p) (b ∷ q)) == 0) ≡ true) × (a ≢ b)
      ⊎ ((length (common_prefix (a ∷ p) (b ∷ q)) == 0) ≡ false)
        × ((c : Bytes) × (common_prefix (a ∷ p) (b ∷ q) ≡ a ∷ c))
unfolding common_prefix
common_prefix-cases p q a b = elim (Bool-cases (a == b)) [
  | inl same ↦ rw same (inr (ground arith, (common_prefix p q, refl)))
  | inr other ↦ rw other (inl (ground arith, ground arith))
]

-- Both texts begin with it.
pub common_prefix-left : (s t : Bytes) → (r : Bytes) × (s ≡ common_prefix s t ++ r)
unfolding common_prefix
common_prefix-left [] t = ([], refl)
common_prefix-left (a ∷ s) [] = (a ∷ s, refl)
common_prefix-left (a ∷ s) (b ∷ t) = elim (Bool-cases (a == b)) [
  | inl same ↦ let (r, e) = common_prefix-left s t in rw same (r, ap (◌∷◌ a) e)
  | inr other ↦ rw other (a ∷ s, refl)
]

pub common_prefix-right : (s t : Bytes) → (r : Bytes) × (t ≡ common_prefix s t ++ r)
unfolding common_prefix
common_prefix-right [] t = (t, refl)
common_prefix-right (a ∷ s) [] = ([], refl)
common_prefix-right (a ∷ s) (b ∷ t) = elim (Bool-cases (a == b)) [
  | inl same ↦
      let (r, e) = common_prefix-right s t in
      let eq : a ≡ b = ground arith in rw same (r, ap₂ ◌∷◌ (sym eq) e)
  | inr other ↦ rw other (b ∷ t, refl)
]

pub nil_walk : (s : Bytes) → walk_children no_tries s ≡ []
unfolding walk_children
nil_walk s = refl

pub lt_of_le_ne : (a b : ℕ) → a ≤ b → a ≢ b → a < b
lt_of_le_ne a b h k = omega arith
