-- ===== src/Prelude/Bytes.antt =====
-- Go strings as lists of bytes: the operations that the router uses, and their laws.
use Prim.Native.Nat.{ℕ, zero, suc}
use Prim.Native.Char.{code}
use Prim.Native.String.{String}
use mathlib.Core.Path.{◌≡◌, refl, sym, ap, ◌∙◌}
use mathlib.Core.Bool.{Bool, true, false, ◌&&◌}
use mathlib.Core.Logic.{◌⊎◌, ◌↔◌, inl, inr}
use mathlib.Core.List.{List, [], ◌∷◌, ◌++◌}
use native.Mathlib.Omega.{arith}
use goji.Prelude.Tests.{ltb, ◌==◌, if◌then◌else◌, Bool-cases}
use goji.Prelude.Lists.{drop, drop-append, take, length}

abbrev pub Bytes : Type 0
Bytes = List ℕ

-- The code points of a text: its bytes, if it is ASCII.
abbrev pub codes : String → Bytes
codes String.[] = []
codes (String.◌∷◌ c s) = code c ∷ codes s

-- `s == t` on strings.
abbrev pub str_eq : Bytes → Bytes → Bool
str_eq [] [] = true
str_eq (a ∷ s) (b ∷ t) = a == b && str_eq s t
str_eq _ _ = false

-- `strings.HasPrefix(s, p)`, the subject first as in Go.
abbrev pub has_prefix : Bytes → Bytes → Bool
has_prefix s [] = true
has_prefix [] (b ∷ p) = false
has_prefix (a ∷ s) (b ∷ p) = a == b && has_prefix s p

-- Go's `s <= t` on strings: by bytes, a prefix first.
abbrev pub str_le : Bytes → Bytes → Bool
str_le [] t = true
str_le (a ∷ s) [] = false
str_le (a ∷ s) (b ∷ t) = if a == b then str_le s t else ltb a b

pub str_eq_iff : (s t : Bytes) → (str_eq s t ≡ true) ↔ (s ≡ t)
str_eq_iff [] [] = (λ h. refl, λ h. refl)
str_eq_iff [] (b ∷ t) = (λ h. cc, λ h. cc)
str_eq_iff (a ∷ s) [] = (λ h. cc, λ h. cc)
str_eq_iff (a ∷ s) (b ∷ t) = ground (arith, str_eq_iff s t)

pub has_prefix-append : (p s : Bytes) → has_prefix (p ++ s) p ≡ true
has_prefix-append [] s = refl
has_prefix-append (a ∷ p) s = ground (arith, has_prefix-append p s)

pub has_prefix_cancel : (w s p : Bytes) → has_prefix (w ++ s) (w ++ p) ≡ has_prefix s p
has_prefix_cancel [] s p = refl
has_prefix_cancel (a ∷ w) s p = ground (arith, has_prefix_cancel w s p)

pub str_le_cancel : (w s p : Bytes) → str_le (w ++ s) (w ++ p) ≡ str_le s p
str_le_cancel [] s p = refl
str_le_cancel (a ∷ w) s p = ground (arith, str_le_cancel w s p)

-- A prefix is what the text begins with.
pub has_prefix-split : (s p : Bytes) → has_prefix s p ≡ true → (r : Bytes) × (s ≡ p ++ r)
has_prefix-split s [] h = (s, refl)
has_prefix-split [] (b ∷ p) h = cc
has_prefix-split (a ∷ s) (b ∷ p) h =
    let (r, e) = has_prefix-split s p (ground arith) in let same : a ≡ b = ground arith in (r, cc)

-- Of two prefixes of one text the first of two that are in order as strings is a prefix of the
-- other.
pub has_prefix-str_le :
    (s p q : Bytes)
    → has_prefix s p ≡ true
    → has_prefix s q ≡ true
    → (str_le p q ≡ true) ⊎ (has_prefix p q ≡ true)
has_prefix-str_le s [] q hp hq = inl refl
has_prefix-str_le s (a ∷ p) [] hp hq = inr refl
has_prefix-str_le [] (a ∷ p) (b ∷ q) hp hq = inl (cc)
has_prefix-str_le (c ∷ s) (a ∷ p) (b ∷ q) hp hq = ground (arith, has_prefix-str_le s p q)

pub has_prefix-take : (n : ℕ) (s p : Bytes) → has_prefix s p ≡ true → has_prefix s (take n p) ≡ true
has_prefix-take zero s p h = refl
has_prefix-take (suc n) s [] h = refl
has_prefix-take (suc n) [] (b ∷ p) h = cc
has_prefix-take (suc n) (a ∷ s) (b ∷ p) h = ground (arith, has_prefix-take n s p)

pub has_prefix-take-false : (s p : Bytes) → has_prefix s (take 3 p) ≡ false → has_prefix s p ≡ false
has_prefix-take-false s p h = elim (Bool-cases (has_prefix s p)) [
  | inl e ↦ cc (has_prefix-take 3 s p e)
  | inr e ↦ e
]

pub has_prefix-drop : (s p : Bytes) → has_prefix s p ≡ true → p ++ drop (length p) s ≡ s
has_prefix-drop s p h =
    let (s', e) = has_prefix-split s p h in
    ap (◌++◌ p) (ap (drop (length p)) e ∙ drop-append p s') ∙ sym e

-- A text that does not begin with `p` begins with no longer string either.
pub has_prefix-append_false :
    (s p q : Bytes) → has_prefix s p ≡ false → has_prefix s (p ++ q) ≡ false
has_prefix-append_false s [] q h = cc
has_prefix-append_false [] (b ∷ p) q h = refl
has_prefix-append_false (a ∷ s) (b ∷ p) q h = ground (arith, has_prefix-append_false s p q)

pub str_le_total : (s t : Bytes) → (str_le s t ≡ true) ⊎ (str_le t s ≡ true)
str_le_total [] t = inl refl
str_le_total (a ∷ s) [] = inr refl
str_le_total (a ∷ s) (b ∷ t) = ground (arith, str_le_total s t)
