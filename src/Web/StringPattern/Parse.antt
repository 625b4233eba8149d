-- ===== src/Web/StringPattern/Parse.antt =====
-- web/string_pattern.go: the shape of what `parseStringPattern` gives.
use goji.Prelude.{
  ℕ, zero, suc, ◌+◌, ◌-◌, ◌≤◌, ◌≡◌, ◌≢◌, refl, sym, ◌∙◌, ap, subst, Bool, true, ◌&&◌, List, [], ◌∷◌,
  ◌++◌, length, take, drop, get_or, if◌then◌else◌, arith, Bool-cases, inl, inr, All, take-append,
  take-append-drop, length-append,
}
use mathlib.Core.List.{append_assoc}
use goji.Prelude.Bytes.{Bytes, codes, str_eq_iff}
use goji.Web.StringPattern.{
  is_break, name_length, starts_name, find_all, parse_literals, parse_pats, parse_breaks,
  has_suffix, parse_string_pattern,
}
use goji.Web.StringPattern.Finish.{IsWellFormed}

length-parse_literals :
    (s : Bytes) (n : ℕ) (ms : List (ℕ × ℕ)) → length (parse_literals s n ms) ≡ length ms + 1
unfolding parse_literals
length-parse_literals s n [] = refl
length-parse_literals s n ((a, b) ∷ ms) = omega (arith, length-parse_literals s b ms)

length-parse_pats : (s : Bytes) (ms : List (ℕ × ℕ)) → length (parse_pats s ms) ≡ length ms
unfolding parse_pats
length-parse_pats s [] = refl
length-parse_pats s ((a, b) ∷ ms) = omega (arith, length-parse_pats s ms)

length-parse_breaks : (s : Bytes) (ms : List (ℕ × ℕ)) → length (parse_breaks s ms) ≡ length ms
unfolding parse_breaks
length-parse_breaks s [] = refl
length-parse_breaks s ((a, b) ∷ ms) = omega (arith, length-parse_breaks s ms)

-- A text that ends in a slash.
abbrev slashed : Bytes → Bytes
slashed v = v ++ b'/' ∷ []

-- A name ends in front of the final slash.
name_length-slashed : (v : Bytes) → name_length (slashed v) ≤ length v
unfolding name_length is_break
name_length-slashed [] = omega arith
name_length-slashed (c ∷ v) = ground (arith, name_length-slashed v)

name-in_front :
    (v : Bytes) → starts_name (slashed v) ≡ true → 1 + name_length (drop 1 (slashed v)) ≤ length v
unfolding starts_name
name-in_front [] h = ground arith
name-in_front (c ∷ v) h = ground (arith, name_length-slashed v)

and_right : (a b : Bool) → (a && b) ≡ true → b ≡ true
and_right a b h = ground arith

no_name : (is_break b'/' && starts_name []) ≢ true
unfolding starts_name
no_name h = ground arith

ends-in_front :
    (v : Bytes) (pos k : ℕ) → pos + length v ≤ k → All (λ m. m.1 ≤ k) (find_all pos (slashed v))
unfolding find_all
ends-in_front [] pos k h = elim (Bool-cases (is_break b'/' && starts_name [])) [
  | inl hit ↦ absurd (no_name hit)
  | inr miss ↦ rw miss tt
]
ends-in_front (c ∷ v) pos k h =
    let more = ends-in_front v (pos + 1) k (omega arith) in
    elim (Bool-cases (is_break c && starts_name (slashed v))) [
      | inl hit ↦ rw hit (
          (
            omega (arith, name-in_front v (and_right (is_break c) (starts_name (slashed v)) hit)),
            more,
          ))
      | inr miss ↦ rw miss more
    ]

drop-slashed : (n : ℕ) (v : Bytes) → n ≤ length v → drop n (slashed v) ≢ []
drop-slashed zero [] h = λ e. cc
drop-slashed zero (c ∷ v) h = λ e. cc
drop-slashed (suc n) [] h = absurd (omega arith)
drop-slashed (suc n) (c ∷ v) h = drop-slashed n v (omega arith)

last-literal :
    (v : Bytes) (n : ℕ) (ms : List (ℕ × ℕ))
    → n ≤ length v
    → All (λ m. m.1 ≤ length v) ms
    → get_or (parse_literals (slashed v) n ms) (length (parse_pats (slashed v) ms)) [] ≢ []
unfolding parse_literals parse_pats
last-literal v n [] h hs = drop-slashed n v h
last-literal v n ((a, b) ∷ ms) h (hb, hs) = last-literal v b ms hb hs

-- A pattern with the suffix "/*" without its star ends in a slash.
without_star :
    (raw : Bytes)
    → has_suffix raw (codes "/*") ≡ true
    → (v : Bytes) × (take (length raw - 1) raw ≡ slashed v)
without_star raw h =
    let v = take (length raw - 2) raw in
    let long : 2 ≤ length raw = ground arith in
    let tail : drop (length raw - 2) raw ≡ b'/' ∷ b'*' ∷ [] =
      (str_eq_iff (drop (length raw - 2) raw) (codes "/*")).0 (and_right _ _ h) in
    let whole : raw ≡ slashed v ++ b'*' ∷ [] =
      sym (take-append-drop (length raw - 2) raw)
      ∙ ap (◌++◌ v) tail
      ∙ sym (append_assoc v (b'/' ∷ []) (b'*' ∷ [])) in
    let cut : length raw - 1 ≡ length (slashed v) =
      omega (arith, ap length whole, length-append (slashed v) (b'*' ∷ [])) in
    (
      v,
      ap (λ k. take k raw) cut
          ∙ ap (take (length (slashed v))) whole
          ∙ take-append (slashed v) (b'*' ∷ []),
    )

-- Every text is parsed into a well-formed pattern: there is one literal more than names and one
-- break character for each name, and the last literal of a wildcard pattern is not empty.
pub parse_string_pattern-IsWellFormed : (raw : Bytes) → IsWellFormed (parse_string_pattern raw)
unfolding parse_string_pattern
parse_string_pattern-IsWellFormed raw =
    let wild = has_suffix raw (codes "/*") in
    let s = if wild then take (length raw - 1) raw else raw in
    let ms = find_all 0 s in
    record {
      one_more = omega (arith, length-parse_literals s 0 ms, length-parse_pats s ms);
      each_breaks = omega (arith, length-parse_breaks s ms, length-parse_pats s ms);
      star_tail = λ w.
          let (v, e) = without_star raw w in
          let same : s ≡ slashed v = ap (λ b. if b then take (length raw - 1) raw else raw) w ∙ e in
          subst
            (λ t.
              get_or (parse_literals t 0 (find_all 0 t)) (length (parse_pats t (find_all 0 t))) []
              ≢ [])
            (sym same)
            (last-literal v 0 (find_all 0 (slashed v)) (omega arith)
              (ends-in_front v 0 (length v) (omega arith)));
    }
