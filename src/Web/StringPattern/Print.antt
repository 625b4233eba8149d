-- ===== src/Web/StringPattern/Print.antt =====
-- web/string_pattern.go: the text of a pattern, put together from what `parseStringPattern` makes of
-- it.
use goji.Prelude.{
  ℕ, zero, suc, ◌+◌, ◌-◌, ◌≤◌, ◌≡◌, refl, sym, ◌∙◌, ap, subst, Bool, true, false, ◌&&◌, List, [],
  ◌∷◌, ◌++◌, length, take, drop, if◌then◌else◌, arith, Bool-cases, inl, inr, All, take-append-drop,
}
use mathlib.Core.List.{append-nil}
use goji.Prelude.Bytes.{Bytes, codes, str_eq_iff}
use goji.Web.StringPattern.{
  StringPattern, is_break, name_length, starts_name, find_all, slice, parse_literals, parse_pats,
  has_suffix, parse_string_pattern, star,
}

-- Literals and names in turn, each name behind a colon.
unfoldable pub interleave : List Bytes → List Bytes → Bytes
interleave [] ps = []
interleave (l ∷ ls) [] = l
interleave (l ∷ ls) (p ∷ ps) = l ++ (b':' ∷ (p ++ interleave ls ps))

unfoldable pub print_pattern : StringPattern → Bytes
unfolding interleave
print_pattern s = interleave s.literals s.pats ++ (if s.wildcard then star else [])

module _ {A : Type 0} where
  drop-nil : (n : ℕ) → drop {A = A} n [] ≡ []
  drop-nil zero = refl
  drop-nil (suc n) = refl

  drop-drop : (m n k : ℕ) (s : List A) → m + n ≡ k → drop n (drop m s) ≡ drop k s
  drop-drop zero n k s e = ap (λ i. drop i s) (omega (arith, e))
  drop-drop (suc m) n zero s e = absurd (omega (arith, e))
  drop-drop (suc m) n (suc k) [] e = drop-nil n
  drop-drop (suc m) n (suc k) (x ∷ s) e = drop-drop m n k s (omega (arith, e))

  drop-next : (pos : ℕ) (s t : List A) (c : A) → drop pos s ≡ c ∷ t → drop (suc pos) s ≡ t
  drop-next zero (x ∷ s) t c e = ap (drop 1) e
  drop-next zero [] t c e = cc
  drop-next (suc pos) (x ∷ s) t c e = drop-next pos s t c e
  drop-next (suc pos) [] t c e = cc

slice-drop : (s : Bytes) (a b : ℕ) → a ≤ b → slice s a b ++ drop b s ≡ drop a s
slice-drop s a b h =
    ap (◌++◌ (slice s a b)) (sym (drop-drop a (b - a) b s (omega arith)))
    ∙ take-append-drop (b - a) (drop a s)

-- Each name is behind a colon, and the names are one after another from `n` on.
abbrev Fits : Bytes → ℕ → List (ℕ × ℕ) → Type 0
Fits s n [] = Unit
Fits s n ((a, b) ∷ ms) =
    ((suc n ≤ a) × ((a ≤ b) × (drop (a - 1) s ≡ b':' ∷ drop a s))) × Fits s b ms

interleave-parse :
    (s : Bytes) (n : ℕ) (ms : List (ℕ × ℕ))
    → Fits s n ms
    → interleave (parse_literals s n ms) (parse_pats s ms) ≡ drop n s
unfolding interleave parse_literals parse_pats
interleave-parse s n [] f = refl
interleave-parse s n ((a, b) ∷ ms) ((lo, (hi, colon)), f) =
    ap (λ r. slice s n (a - 1) ++ (b':' ∷ (slice s a b ++ r))) (interleave-parse s b ms f)
    ∙ ap (λ r. slice s n (a - 1) ++ (b':' ∷ r)) (slice-drop s a b hi)
    ∙ ap (◌++◌ (slice s n (a - 1))) (sym colon)
    ∙ slice-drop s n (a - 1) (omega arith)

abbrev NoBreak : Bytes → Type 0
NoBreak = All (λ c. is_break c ≡ false)

name-NoBreak : (s : Bytes) → NoBreak (take (name_length s) s)
unfolding name_length
name-NoBreak [] = tt
name-NoBreak (c ∷ s) = elim (Bool-cases (is_break c)) [
  | inl e ↦ rw e tt
  | inr e ↦ rw e (e, name-NoBreak s)
]

and_left : (a b : Bool) → (a && b) ≡ true → a ≡ true
and_left a b h = ground arith

and_right : (a b : Bool) → (a && b) ≡ true → b ≡ true
and_right a b h = ground arith

-- A name begins with a colon.
starts_name-colon : (t : Bytes) → starts_name t ≡ true → (u : Bytes) × (t ≡ b':' ∷ u)
unfolding starts_name
starts_name-colon [] h = cc
starts_name-colon (c ∷ t) h = (t, ap (λ x. x ∷ t) (ground arith))

colon-NoBreak : is_break b':' ≡ false
unfolding is_break
colon-NoBreak = refl

NoBreak-hit : (k : ℕ) (c : ℕ) (t : Bytes) → is_break c ≡ true → NoBreak (take k (c ∷ t)) → k ≡ 0
NoBreak-hit zero c t e h = refl
NoBreak-hit (suc k) c t e h = cc (sym e ∙ h.0)

NoBreak-miss :
    (k j : ℕ) (c : ℕ) (t : Bytes) → j ≡ k - 1 → NoBreak (take k (c ∷ t)) → NoBreak (take j t)
NoBreak-miss zero j c t e h = rw e tt
NoBreak-miss (suc k) j c t e h = subst (λ i. NoBreak (take i t)) (sym (e ∙ omega arith)) h.1

-- What a name read at `pos` leaves of the rest.
hit-Fits :
    (s u : Bytes) (c pos n : ℕ)
    → drop pos s ≡ c ∷ b':' ∷ u
    → n ≤ pos
    → (suc n ≤ pos + 2)
      × ((pos + 2 ≤ pos + 2 + name_length u) × (drop (pos + 2 - 1) s ≡ b':' ∷ drop (pos + 2) s))
hit-Fits s u c pos n e h =
    let first : drop (suc pos) s ≡ b':' ∷ u = drop-next pos s (b':' ∷ u) c e in
    let second : drop (suc (suc pos)) s ≡ u = drop-next (suc pos) s u b':' first in
    let one : pos + 2 - 1 ≡ suc pos = omega arith in
    let two : pos + 2 ≡ suc (suc pos) = omega arith in
    (
      omega arith,
      (
        omega arith,
        ap (λ k. drop k s) one ∙ first ∙ ap (◌∷◌ b':') (sym second ∙ ap (λ k. drop k s) (sym two)),
      ),
    )

name-NoBreak_behind :
    (u : Bytes) (pos : ℕ) → NoBreak (take (pos + 2 + name_length u - (pos + 1)) (b':' ∷ u))
name-NoBreak_behind u pos =
    let ahead : suc (name_length u) ≡ pos + 2 + name_length u - (pos + 1) = omega arith in
    subst (λ k. NoBreak (take k (b':' ∷ u))) ahead (colon-NoBreak, name-NoBreak u)

-- Behind position `n` no name is left half read.
find_all-Fits :
    (s t : Bytes) (pos n : ℕ)
    → drop pos s ≡ t
    → NoBreak (take (n - pos) t)
    → Fits s n (find_all pos t)
unfolding find_all
find_all-Fits s [] pos n e h = tt
find_all-Fits s (c ∷ t) pos n e h =
    let one : pos + 1 ≡ suc pos = omega arith in
    let next : drop (pos + 1) s ≡ t = ap (λ k. drop k s) one ∙ drop-next pos s t c e in
    elim (Bool-cases (is_break c && starts_name t)) [
      | inl hit ↦
          let (u, colon) = starts_name-colon t (and_right (is_break c) (starts_name t) hit) in
          let before : n - pos ≡ 0 =
            NoBreak-hit (n - pos) c t (and_left (is_break c) (starts_name t) hit) h in
          let b = pos + 2 + name_length u in
          let same : drop 1 t ≡ u = ap (drop 1) colon in
          rw hit (
            subst (λ v. Fits s n ((pos + 2, pos + 2 + name_length v) ∷ find_all (pos + 1) t))
              (sym same)
              (
                hit-Fits s u c pos n (e ∙ ap (◌∷◌ c) colon) (omega (arith, before)),
                find_all-Fits s t (pos + 1) b next (
                    subst (λ v. NoBreak (take (b - (pos + 1)) v)) (sym colon)
                      (name-NoBreak_behind u pos)),
              ))
      | inr miss ↦ rw miss (
          find_all-Fits s t (pos + 1) n next
            (NoBreak-miss (n - pos) (n - (pos + 1)) c t (omega arith) h))
    ]

parsed_text :
    (s : Bytes) → interleave (parse_literals s 0 (find_all 0 s)) (parse_pats s (find_all 0 s)) ≡ s
parsed_text s = interleave-parse s 0 (find_all 0 s) (find_all-Fits s s 0 0 refl tt)

-- A pattern with the suffix "/*" ends in a star.
last_star :
    (raw : Bytes) → has_suffix raw (codes "/*") ≡ true → take (length raw - 1) raw ++ star ≡ raw
last_star raw h =
    let long : 2 ≤ length raw = ground arith in
    let tail : drop (length raw - 2) raw ≡ b'/' ∷ b'*' ∷ [] =
      (str_eq_iff (drop (length raw - 2) raw) (codes "/*")).0 (and_right _ _ h) in
    let end : drop (length raw - 1) raw ≡ star =
      sym (drop-drop (length raw - 2) 1 (length raw - 1) raw (omega (arith, long)))
      ∙ ap (drop 1) tail in
    ap (◌++◌ (take (length raw - 1) raw)) (sym end) ∙ take-append-drop (length raw - 1) raw

-- For every text: the literals and the names that parseStringPattern takes from it, in turn with
-- a colon before each name, and a star behind them where it finds the wildcard, are the text
-- again.
pub print-parse_string_pattern : (raw : Bytes) → print_pattern (parse_string_pattern raw) ≡ raw
unfolding print_pattern parse_string_pattern
print-parse_string_pattern raw = elim (Bool-cases (has_suffix raw (codes "/*"))) [
  | inl wild ↦
      rw wild (ap (λ t. t ++ star) (parsed_text (take (length raw - 1) raw)) ∙ last_star raw wild)
  | inr plain ↦ rw plain (append-nil _ ∙ parsed_text raw)
]
