-- ===== src/Web/StringPattern/Reads.antt =====
-- web/string_pattern.go: what a pattern says about a path, with no loop in it, and the loop of
-- `match` against it.
use goji.Prelude.{
  ℕ, ◌≡◌, ◌≢◌, refl, sym, ◌∙◌, ap, subst, Bool, true, false, List, [], ◌∷◌, ◌++◌, length, take,
  drop, ◌==◌, ◌||◌, arith, Bool-cases, inl, inr, ◌⊎◌, All, take-append, drop-append,
  take-append-drop,
}
use goji.Prelude.Bytes.{Bytes, has_prefix, has_prefix-append, has_prefix-drop}
use goji.Web.StringPattern.{Params, run_length, mismatch, walked, bind, walk_pats}

-- A value holds neither its break character nor a slash, and it is cut off by one, or by the end.
abbrev pub IsValue : ℕ → Bytes → Type 0
IsValue b v = All (λ c. (c ≢ b) × (c ≢ b'/')) v

abbrev pub Stops : ℕ → Bytes → Type 0
Stops b [] = Unit
Stops b (c ∷ s) = (c ≡ b) ⊎ (c ≡ b'/')

-- The path is read as literals and non-empty values in turn, one value for each name; `ls'` are
-- the literals behind those, and `rest` is what is left of the path.
pub data Reads
    : List Bytes → List ℕ → List Bytes → Bytes → Params → List Bytes → Bytes → Type 0 where
  at_end : {bs : List ℕ} {ls : List Bytes} {path : Bytes} → Reads [] bs ls path [] ls path
  value :
      {pats : List Bytes} {bs : List ℕ} {ls ls' : List Bytes} {ps : Params} {rest : Bytes}
      (pat : Bytes) (b : ℕ) (l v : Bytes) (path path' : Bytes)
      → path ≡ l ++ (v ++ path')
      → v ≢ []
      → IsValue b v
      → Stops b path'
      → Reads pats bs ls path' ps ls' rest
      → Reads (pat ∷ pats) (b ∷ bs) (l ∷ ls) path ((pat, v) ∷ ps) ls' rest

-- The map that the bindings build, one after another; a dry run builds none.
abbrev pub bind_all : Bool → Params → Params → Params
bind_all dryrun [] acc = acc
bind_all dryrun ((k, v) ∷ ps) acc = bind_all dryrun ps (bind dryrun k v acc)

run_length-IsValue : (b : ℕ) (s : Bytes) → IsValue b (take (run_length b s) s)
unfolding run_length
run_length-IsValue b [] = tt
run_length-IsValue b (c ∷ s) = elim (Bool-cases (c == b || c == b'/')) [
  | inl stop ↦ rw stop tt
  | inr go ↦ rw go ((ground arith, ground arith), run_length-IsValue b s)
]

run_length-Stops : (b : ℕ) (s : Bytes) → Stops b (drop (run_length b s) s)
unfolding run_length
run_length-Stops b [] = tt
run_length-Stops b (c ∷ s) = elim (Bool-cases (c == b || c == b'/')) [
  | inl stop ↦ rw stop (ground arith)
  | inr go ↦ rw go (run_length-Stops b s)
]

run_length-append :
    (b : ℕ) (v s : Bytes) → IsValue b v → Stops b s → run_length b (v ++ s) ≡ length v
unfolding run_length
run_length-append b [] [] h k = refl
run_length-append b [] (c ∷ s) h k = ground arith
run_length-append b (c ∷ v) s (h, hs) k = ground (arith, run_length-append b v s hs k)

length-test : (v : Bytes) → v ≢ [] → (length v == 0) ≡ false
length-test [] ne = absurd (ne refl)
length-test (c ∷ v) ne = ground arith

run_nonempty : (b : ℕ) (s : Bytes) → (run_length b s == 0) ≡ false → take (run_length b s) s ≢ []
unfolding run_length
run_nonempty b [] h e = cc
run_nonempty b (c ∷ s) h e = ground arith

-- Every reading of the path is what the loop finds.
pub Reads→walk :
    (dryrun : Bool) (pats : List Bytes) (bs : List ℕ) (ls ls' : List Bytes) (path rest : Bytes)
    (ps acc : Params)
    → Reads pats bs ls path ps ls' rest
    → walk_pats dryrun pats bs ls path acc ≡ walked rest ls' (bind_all dryrun ps acc)
unfolding walk_pats
Reads→walk dryrun _ _ _ _ _ _ _ acc at_end = refl
Reads→walk dryrun _ _ _ _ _ _ _ acc
      (value {pats} {bs} {ls} {ls'} {ps} {rest} pat b l v path path' e ne iv st more) =
    let begins : has_prefix path l ≡ true =
      ap (λ t. has_prefix t l) e ∙ has_prefix-append l (v ++ path') in
    let left : drop (length l) path ≡ v ++ path' =
      ap (drop (length l)) e ∙ drop-append l (v ++ path') in
    let run = run_length-append b v path' iv st in
    rw (begins, left, run, take-append v path', drop-append v path', length-test v ne)
      (Reads→walk dryrun pats bs ls ls' path' rest ps (bind dryrun pat v acc) more)

mismatch≢walked : {rest : Bytes} {ls : List Bytes} {ps : Params} → mismatch ≢ walked rest ls ps
mismatch≢walked = λ e. cc

module _ (dryrun : Bool) (pat : Bytes) (pats : List Bytes) (b : ℕ) (bs : List ℕ) (l : Bytes)
    (ls : List Bytes) (path : Bytes) (acc : Params) where
  walk_pats_miss :
      has_prefix path l ≡ false
      → walk_pats dryrun (pat ∷ pats) (b ∷ bs) (l ∷ ls) path acc ≡ mismatch
  unfolding walk_pats
  walk_pats_miss h = rw h

  walk_pats_empty :
      has_prefix path l ≡ true
      → (run_length b (drop (length l) path) == 0) ≡ true
      → walk_pats dryrun (pat ∷ pats) (b ∷ bs) (l ∷ ls) path acc ≡ mismatch
  unfolding walk_pats
  walk_pats_empty h k = rw (h, k)

  walk_pats_more :
      has_prefix path l ≡ true
      → (run_length b (drop (length l) path) == 0) ≡ false
      → let left = drop (length l) path in
        let m = run_length b left in
        walk_pats dryrun (pat ∷ pats) (b ∷ bs) (l ∷ ls) path acc
        ≡ walk_pats dryrun pats bs ls (drop m left) (bind dryrun pat (take m left) acc)
  unfolding walk_pats
  walk_pats_more h k = rw (h, k)

-- Whatever the loop finds is a reading.
pub walk→Reads :
    (dryrun : Bool) (pats : List Bytes) (bs : List ℕ) (ls ls' : List Bytes) (path rest : Bytes)
    (acc qs : Params)
    → walk_pats dryrun pats bs ls path acc ≡ walked rest ls' qs
    → (ps : Params) × Reads pats bs ls path ps ls' rest × (qs ≡ bind_all dryrun ps acc)
unfolding walk_pats
walk→Reads dryrun [] bs ls ls' path rest acc qs e =
    let el : ls ≡ ls' = ground arith in
    let er : path ≡ rest = ground arith in
    let eq : qs ≡ acc = ground arith in
    (
      [],
      subst (λ t. Reads [] bs ls path [] t rest) el
          (subst (λ t. Reads [] bs ls path [] ls t) er at_end),
      eq,
    )
walk→Reads dryrun (pat ∷ pats) bs [] ls' path rest acc qs e = cc
walk→Reads dryrun (pat ∷ pats) [] (l ∷ ls) ls' path rest acc qs e = ground arith
walk→Reads dryrun (pat ∷ pats) (b ∷ bs) (l ∷ ls) ls' path rest acc qs e =
    elim (Bool-cases (has_prefix path l)) [
      | inr other ↦
          absurd
            (mismatch≢walked (sym (walk_pats_miss dryrun pat pats b bs l ls path acc other) ∙ e))
      | inl begins ↦
          let left = drop (length l) path in
          let m = run_length b left in
          elim (Bool-cases (m == 0)) [
            | inl empty ↦ absurd (
                mismatch≢walked
                  (sym (walk_pats_empty dryrun pat pats b bs l ls path acc begins empty) ∙ e))
            | inr more ↦
                let (ps, reads, eq) =
                  walk→Reads dryrun pats bs ls ls' (drop m left) rest
                    (bind dryrun pat (take m left) acc) qs
                    (sym (walk_pats_more dryrun pat pats b bs l ls path acc begins more) ∙ e) in
                (
                  (pat, take m left) ∷ ps,
                  value pat b l (take m left) path (drop m left)
                      (sym (ap (◌++◌ l) (take-append-drop m left) ∙ has_prefix-drop path l begins))
                      (run_nonempty b left more) (run_length-IsValue b left)
                      (run_length-Stops b left) reads,
                  eq,
                )
          ]
    ]
