-- ===== src/Prelude/Decimal.antt =====
-- Decimal numbers as `fmt.Sprintf("%d", n)` prints them and `strconv.Atoi` reads them. An `int` or
-- `uint64` has at most 20 digits.
use goji.Prelude.Int.{ℤ, pos, negsuc}
use Prim.Native.Nat.{ℕ, zero, suc, ◌+◌, ◌-◌, ◌*◌, ◌/◌, ◌%◌, ◌^◌, ◌<◌}
use mathlib.Core.Path.{◌≡◌, refl, ap, sym, ◌∙◌}
use mathlib.Core.Logic.{inl, inr}
use mathlib.Core.Bool.{Bool, true, false, ◌||◌}
use mathlib.Core.List.{[], ◌∷◌}
use mathlib.Core.Option.{Option, none, some}
use native.Mathlib.Omega.{arith}
use goji.Prelude.Tests.{ltb, leb, ◌==◌, if◌then◌else◌, Bool-cases}
use goji.Prelude.Bytes.{Bytes}

-- The digits of `n`, at most `f` of them, before `out`.
unfoldable pub digits : ℕ → ℕ → Bytes → Bytes
digits zero n out = out
digits (suc f) n out =
    let rest = digits f (n / 10) ((b'0' + n % 10) ∷ out) in
    if ltb n 10 then (b'0' + n % 10) ∷ out else rest

-- `%d` of a number that is not negative.
abbrev pub format : ℕ → Bytes
format n = digits 20 n []

-- The value of the digits `s` after the value `n`.
unfoldable pub value : Bytes → ℕ → Option ℕ
value [] n = some n
value (c ∷ s) n =
    let rest = value s (n * 10 + (c - b'0')) in if ltb c b'0' || ltb b'9' c then none else rest

-- One digit at least.
abbrev pub number : Bytes → Option ℕ
number [] = none
number (c ∷ s) = value (c ∷ s) 0

-- The bounds of a 64-bit `int`.
abbrev pub in_range : Bool → Option ℕ → Option ℤ
in_range minus none = none
in_range false (some n) = if ltb n (2 ^ 63) then some (pos n) else none
in_range true (some zero) = some (pos 0)
in_range true (some (suc n)) = if ltb n (2 ^ 63) then some (negsuc n) else none

-- `strconv.Atoi`: `none` is an error.
unfoldable pub atoi : Bytes → Option ℤ
atoi [] = none
atoi (c ∷ s) =
    if c == b'-'
    then in_range true (number s)
    else if c == b'+'
    then in_range false (number s)
    else in_range false (value (c ∷ s) 0)

tenth_lt : (f n : ℕ) → n < 10 ^ suc f → n / 10 < 10 ^ f
tenth_lt f n h = omega arith

-- A digit read after the number before it.
value-digit : (n : ℕ) (out : Bytes) → value ((b'0' + n % 10) ∷ out) (n / 10) ≡ value out n
unfolding value
value-digit n out = ground arith

value-digit_small : (n : ℕ) (out : Bytes) → n < 10 → value ((b'0' + n % 10) ∷ out) 0 ≡ value out n
unfolding value
value-digit_small n out h = ground arith

-- The digits of a number have its value.
pub value-digits : (f n : ℕ) (out : Bytes) → n < 10 ^ f → value (digits f n out) 0 ≡ value out n
unfolding digits
value-digits zero n out h = ap (value out) (omega arith)
value-digits (suc f) n out h = elim (Bool-cases (ltb n 10)) [
  | inl e ↦ rw e (value-digit_small n out (ground arith))
  | inr e ↦ rw e (value-digits f (n / 10) _ (tenth_lt f n h) ∙ value-digit n out)
]

pub value-format : (n : ℕ) → n < 10 ^ 20 → value (format n) 0 ≡ some n
unfolding value
value-format n h = value-digits 20 n [] h

-- A print begins with a digit.
digits-head :
    (f n : ℕ) (out : Bytes)
    → (c : ℕ) × ((s : Bytes) × ((digits (suc f) n out ≡ c ∷ s) × (leb b'0' c ≡ true)))
unfolding digits
digits-head zero n out = elim (Bool-cases (ltb n 10)) [
  | inl e ↦ (b'0' + n % 10, (out, (rw e refl, ground arith)))
  | inr e ↦ (b'0' + n % 10, (out, (rw e refl, ground arith)))
]
digits-head (suc f) n out = elim (Bool-cases (ltb n 10)) [
  | inl e ↦ (b'0' + n % 10, (out, (rw e refl, ground arith)))
  | inr e ↦
      let (c, (s, (h, p))) = digits-head f (n / 10) ((b'0' + n % 10) ∷ out) in (c, (s, (rw e h, p)))
]

atoi-value :
    (c : ℕ) (s : Bytes) → leb b'0' c ≡ true → atoi (c ∷ s) ≡ in_range false (value (c ∷ s) 0)
unfolding atoi
atoi-value c s h = ground arith

-- `Atoi` reads back what was printed of an `int` that is not negative.
pub atoi-format : (n : ℕ) → n < 2 ^ 63 → atoi (format n) ≡ some (pos n)
atoi-format n h =
    let (c, (s, (e, p))) = digits-head 19 n [] in
    let read : value (c ∷ s) 0 ≡ some n =
      ap (λ t. value t 0) (sym e) ∙ value-format n (omega arith) in
    let fits : ltb n (2 ^ 63) ≡ true = ground arith in
    ap atoi e ∙ atoi-value c s p ∙ ap (in_range false) read ∙ rw fits refl
