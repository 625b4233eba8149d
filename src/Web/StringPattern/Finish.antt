-- ===== src/Web/StringPattern/Finish.antt =====
-- web/string_pattern.go: what the loop of `match` leaves, and what follows it.
use goji.Prelude.{
  ℕ, ◌+◌, ◌-◌, ◌≡◌, ◌≢◌, refl, sym, ◌∙◌, ap, Bool, true, false, List, [], ◌∷◌, ◌++◌, length, take,
  drop, get_or, ◌==◌, arith, Bool-cases, inl, inr,
}
use goji.Prelude.Bytes.{Bytes, has_prefix, has_prefix-append, has_prefix-drop, str_eq, str_eq_iff}
use goji.Web.Context.{insert}
use goji.Web.StringPattern.{
  StringPattern, Params, run_length, Walked, mismatch, walked, out_of_range, bind, walk_pats,
  no_match, matched, panic, star, finish, match_path, is_matched, prefix_of,
}
use goji.Web.StringPattern.Reads.{Reads, bind_all}

-- What `parseStringPattern` gives: one literal more than names, and one break character for each
-- name; the last literal of a wildcard pattern is not empty.
pub record IsWellFormed (s : StringPattern) : Type 0 where
  pub one_more : length s.literals ≡ length s.pats + 1
  pub each_breaks : length s.breaks ≡ length s.pats
  pub star_tail : s.wildcard ≡ true → get_or s.literals (length s.pats) [] ≢ []

-- What may follow the last value: the last literal, and with a wildcard anything behind it.
abbrev pub EndsWith : Bool → Bytes → Bytes → Type 0
EndsWith true tail rest = (t : Bytes) × (rest ≡ tail ++ t)
EndsWith false tail rest = rest ≡ tail

-- The binding of "*": what follows the tail, and the tail's last byte.
abbrev pub with_star : Bool → Bytes → Bytes → Params → Params
with_star true tail rest ps = insert star (drop (length tail - 1) rest) ps
with_star false tail rest ps = ps

-- The pattern's reading of a path: the values of the names in `ps`, and the whole map in `qs`.
pub record IsReading (s : StringPattern) (path : Bytes) (qs : Params) : Type 0 where
  pub values : Params
  pub tail : Bytes
  pub rest : Bytes
  pub reads : Reads s.pats s.breaks s.literals path values (tail ∷ []) rest
  pub ends : EndsWith s.wildcard tail rest
  pub map_of : qs ≡ with_star s.wildcard tail rest (bind_all false values [])

-- The literals that the loop leaves are those behind the names.
pub walk-literals :
    (dryrun : Bool) (pats : List Bytes) (bs : List ℕ) (ls ls' : List Bytes) (path rest : Bytes)
    (acc qs : Params)
    → walk_pats dryrun pats bs ls path acc ≡ walked rest ls' qs
    → ls' ≡ drop (length pats) ls
unfolding walk_pats
walk-literals dryrun [] bs ls ls' path rest acc qs e = ground arith
walk-literals dryrun (pat ∷ pats) bs [] ls' path rest acc qs e = cc
walk-literals dryrun (pat ∷ pats) [] (l ∷ ls) ls' path rest acc qs e = ground arith
walk-literals dryrun (pat ∷ pats) (b ∷ bs) (l ∷ ls) ls' path rest acc qs e =
    let left = drop (length l) path in
    let m = run_length b left in
    ground (
      arith,
      walk-literals dryrun pats bs ls ls' (drop m left) rest (bind dryrun pat (take m left) acc) qs,
    )

-- With a literal and a break character for each name the loop stays in range.
pub walk-in_range :
    (dryrun : Bool) (pats : List Bytes) (bs : List ℕ) (ls : List Bytes) (path : Bytes)
    (acc : Params)
    → length ls ≡ length pats + 1
    → length bs ≡ length pats
    → walk_pats dryrun pats bs ls path acc ≢ out_of_range
unfolding walk_pats
walk-in_range dryrun [] bs ls path acc hl hb = λ e. cc
walk-in_range dryrun (pat ∷ pats) bs [] path acc hl hb = absurd (omega arith)
walk-in_range dryrun (pat ∷ pats) [] (l ∷ ls) path acc hl hb = absurd (omega arith)
walk-in_range dryrun (pat ∷ pats) (b ∷ bs) (l ∷ ls) path acc hl hb =
    let left = drop (length l) path in
    let m = run_length b left in
    ground
      (arith, walk-in_range dryrun pats bs ls (drop m left) (bind dryrun pat (take m left) acc))

pub one_literal :
    (pats ls : List Bytes)
    → length ls ≡ length pats + 1
    → drop (length pats) ls ≡ get_or ls (length pats) [] ∷ []
one_literal pats [] h = absurd (omega arith)
one_literal [] (l ∷ []) h = refl
one_literal [] (l ∷ l' ∷ ls) h = absurd (omega arith)
one_literal (p ∷ pats) (l ∷ ls) h = one_literal pats ls (omega arith)

-- What the end of `match` makes of a finished loop.
pub finish-matched :
    (wildcard : Bool) (path tail : Bytes) (ps : Params)
    → (wildcard ≡ true → tail ≢ [])
    → EndsWith wildcard tail path
    → finish false wildcard (walked path (tail ∷ []) ps) ≡ matched (with_star wildcard tail path ps)
unfolding finish
finish-matched true path [] ps ne e = absurd (ne refl refl)
finish-matched true path (c ∷ tail) ps ne (t, e) =
    rw (ap (λ p. has_prefix p (c ∷ tail)) e ∙ has_prefix-append (c ∷ tail) t) (ground arith)
finish-matched false path tail ps ne e = rw ((str_eq_iff path tail).1 e)

pub finish-ends :
    (dryrun wildcard : Bool) (path tail : Bytes) (ps qs : Params)
    → finish dryrun wildcard (walked path (tail ∷ []) ps) ≡ matched qs
    → EndsWith wildcard tail path
unfolding finish
finish-ends dryrun true path tail ps qs e = elim (Bool-cases (has_prefix path tail)) [
  | inl begins ↦ (drop (length tail) path, sym (has_prefix-drop path tail begins))
  | inr other ↦ ground arith
]
finish-ends dryrun false path tail ps qs e = (str_eq_iff path tail).0 (ground arith)

-- The same outcome with different maps.
abbrev pub Same : Walked → Walked → Type 0
Same mismatch mismatch = Unit
Same out_of_range out_of_range = Unit
Same (walked rest ls _) (walked rest' ls' _) = (rest ≡ rest') × (ls ≡ ls')
Same _ _ = ⊥

pub walk-Same :
    (pats : List Bytes) (bs : List ℕ) (ls : List Bytes) (path : Bytes) (acc acc' : Params)
    → Same (walk_pats true pats bs ls path acc) (walk_pats false pats bs ls path acc')
unfolding walk_pats
walk-Same [] bs ls path acc acc' = (refl, refl)
walk-Same (pat ∷ pats) bs [] path acc acc' = tt
walk-Same (pat ∷ pats) [] (l ∷ ls) path acc acc' = elim (Bool-cases (has_prefix path l)) [
  | inl begins ↦ rw begins tt
  | inr other ↦ rw other tt
]
walk-Same (pat ∷ pats) (b ∷ bs) (l ∷ ls) path acc acc' =
    let left = drop (length l) path in
    let m = run_length b left in
    elim (Bool-cases (has_prefix path l)) [
      | inr other ↦ rw other tt
      | inl begins ↦ elim (Bool-cases (m == 0)) [
        | inl empty ↦ rw (begins, empty) tt
        | inr more ↦
            rw (begins, more)
              (walk-Same pats bs ls (drop m left) acc (bind false pat (take m left) acc'))
      ]
    ]

pub finish-panic :
    (dryrun wildcard : Bool) (rest l : Bytes) (ls : List Bytes) (acc : Params)
    → (wildcard ≡ true → l ≢ [])
    → finish dryrun wildcard (walked rest (l ∷ ls) acc) ≢ panic
unfolding finish
finish-panic dryrun true rest [] ls acc ne = absurd (ne refl refl)
finish-panic dryrun true rest (x ∷ l) ls acc ne = ground arith
finish-panic dryrun false rest l ls acc ne = ground arith

pub finish-dryrun :
    (wildcard : Bool) (rest l : Bytes) (ls : List Bytes) (acc acc' : Params)
    → (wildcard ≡ true → l ≢ [])
    → is_matched (finish true wildcard (walked rest (l ∷ ls) acc))
      ≡ is_matched (finish false wildcard (walked rest (l ∷ ls) acc'))
unfolding finish
finish-dryrun true rest [] ls acc acc' ne = absurd (ne refl refl)
finish-dryrun true rest (x ∷ l) ls acc acc' ne = ground arith
finish-dryrun false rest l ls acc acc' ne = ground arith

pub head_eq : {l l' : Bytes} {ls ls' : List Bytes} → l ∷ ls ≡ l' ∷ ls' → l ≡ l'
head_eq e = cc

pub str_eq-has_prefix : (path l : Bytes) → has_prefix path l ≡ false → str_eq path l ≡ false
str_eq-has_prefix [] [] h = cc
str_eq-has_prefix [] (b ∷ l) h = refl
str_eq-has_prefix (a ∷ path) [] h = refl
str_eq-has_prefix (a ∷ path) (b ∷ l) h = ground (arith, str_eq-has_prefix path l)

pub miss_lem :
    (wildcard : Bool) (pats : List Bytes) (bs : List ℕ) (ls : List Bytes) (path : Bytes)
    → has_prefix path (get_or ls 0 []) ≡ false
    → finish true wildcard (walk_pats true pats bs ls path []) ≡ no_match
unfolding finish walk_pats
miss_lem wildcard pats bs [] path h = ground arith
miss_lem true [] bs (l ∷ ls) path h = rw h
miss_lem false [] bs (l ∷ ls) path h = rw (str_eq-has_prefix path l h)
miss_lem wildcard (pat ∷ pats) [] (l ∷ ls) path h = rw h
miss_lem wildcard (pat ∷ pats) (b ∷ bs) (l ∷ ls) path h = rw h

pub match_path-miss :
    (s : StringPattern) (path : Bytes)
    → has_prefix path (prefix_of s) ≡ false
    → match_path s true path ≡ no_match
unfolding match_path
match_path-miss s path h = miss_lem s.wildcard s.pats s.breaks s.literals path h

pub matched_injective : {ps qs : Params} → matched ps ≡ matched qs → ps ≡ qs
matched_injective e = cc
