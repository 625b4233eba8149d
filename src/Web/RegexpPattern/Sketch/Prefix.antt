-- ===== src/Web/RegexpPattern/Sketch/Prefix.antt =====
-- web/regexp_pattern.go: what `sketchOnRegex` writes is a prefix of all texts that the program takes.
-- `consumes` says of which runes an instruction of the four kinds takes one.
use goji.Prelude.{
  ℕ, zero, suc, ◌≡◌, refl, sym, ◌∙◌, ap, Bool, true, false, Option, none, some, List, [], ◌∷◌, ◌++◌,
  get_elem?, ◌⊎◌, inl, inr,
}
use goji.Prelude.Bytes.{Bytes, has_prefix, has_prefix_cancel}
use goji.Web.RegexpPattern.Sketch.{
  InstOp, inst_alt, inst_alt_match, inst_capture, inst_empty_width, inst_match, inst_nop, inst_rune,
  inst_rune1, inst_rune_any, inst_rune_any_not_nl, Inst, literal_rune, write_rune, sketch_inst,
  append_to, sketch_loop,
}

-- The operations that take one rune.
pub data IsRuneOp : InstOp → Type 0 where
  rune_op : IsRuneOp inst_rune
  rune1_op : IsRuneOp inst_rune1
  rune_any_op : IsRuneOp inst_rune_any
  rune_any_not_nl_op : IsRuneOp inst_rune_any_not_nl

-- Those that take nothing and have one way on.
pub data IsSkipOp : InstOp → Type 0 where
  capture_op : IsSkipOp inst_capture
  empty_width_op : IsSkipOp inst_empty_width
  nop_op : IsSkipOp inst_nop

-- Those that have two ways on.
pub data IsAltOp : InstOp → Type 0 where
  alt_op : IsAltOp inst_alt
  alt_match_op : IsAltOp inst_alt_match

-- The texts that the program takes from `pc` on, up to any rest after the match. An empty-width
-- condition may hold anywhere here, so these are at least the texts that package regexp takes.
pub data Accepts (utf8 : ℕ → Bytes) (consumes : Inst → ℕ → Bool) (prog : List Inst)
    : ℕ → Bytes → Type 0 where
  ended :
      (pc : ℕ) (i : Inst) (s : Bytes)
      → get_elem? prog pc ≡ some i
      → i.op ≡ inst_match
      → Accepts utf8 consumes prog pc s
  skipped :
      (pc : ℕ) (i : Inst) (s : Bytes)
      → get_elem? prog pc ≡ some i
      → IsSkipOp i.op
      → Accepts utf8 consumes prog i.out s
      → Accepts utf8 consumes prog pc s
  took :
      (pc : ℕ) (i : Inst) (r : ℕ) (s : Bytes)
      → get_elem? prog pc ≡ some i
      → IsRuneOp i.op
      → consumes i r ≡ true
      → Accepts utf8 consumes prog i.out s
      → Accepts utf8 consumes prog pc (utf8 r ++ s)
  chose :
      (pc : ℕ) (i : Inst) (next : ℕ) (s : Bytes)
      → get_elem? prog pc ≡ some i
      → IsAltOp i.op
      → (next ≡ i.out) ⊎ (next ≡ i.other)
      → Accepts utf8 consumes prog next s
      → Accepts utf8 consumes prog pc s

-- The loop writes a rune only where the instruction lists it alone and does not fold cases.
literal_rune-some :
    (fold_case : Bool) (runes : List ℕ) (r : ℕ)
    → literal_rune fold_case runes ≡ some r
    → (fold_case ≡ false) × (runes ≡ r ∷ [])
literal_rune-some true runes r e = cc
literal_rune-some false [] r e = cc
literal_rune-some false (q ∷ []) r e = (refl, cc)
literal_rune-some false (q ∷ q' ∷ runes) r e = cc

module _ (utf8 : ℕ → Bytes) (consumes : Inst → ℕ → Bool) (prog : List Inst)
    (literal : (i : Inst) (r r' : ℕ)
      → i.fold_case ≡ false
      → i.runes ≡ r ∷ []
      → consumes i r' ≡ true
      → r' ≡ r) where
  rune_inst :
      (op : InstOp) (i : Inst) (at_start : Bool)
      → IsRuneOp op
      → sketch_inst utf8 op i at_start ≡ write_rune utf8 (literal_rune i.fold_case i.runes)
  rune_inst _ i at_start rune_op = refl
  rune_inst _ i at_start rune1_op = refl
  rune_inst _ i at_start rune_any_op = refl
  rune_inst _ i at_start rune_any_not_nl_op = refl

  skip_inst :
      (op : InstOp) (i : Inst) (at_start : Bool)
      → IsSkipOp op
      → (sketch_inst utf8 op i at_start ≡ some ([], at_start))
        ⊎ (sketch_inst utf8 op i at_start ≡ none)
  skip_inst _ i at_start capture_op = inl refl
  skip_inst _ i true empty_width_op = inl refl
  skip_inst _ i false empty_width_op = inr refl
  skip_inst _ i at_start nop_op = inl refl

  alt_inst :
      (op : InstOp) (i : Inst) (at_start : Bool)
      → IsAltOp op
      → sketch_inst utf8 op i at_start ≡ none
  alt_inst _ i at_start alt_op = refl
  alt_inst _ i at_start alt_match_op = refl

  stops :
      (n : ℕ) (at_start : Bool) (pc : ℕ) (i : Inst) (p s : Bytes)
      → get_elem? prog pc ≡ some i
      → sketch_inst utf8 i.op i at_start ≡ none
      → sketch_loop utf8 prog (suc n) at_start pc ≡ some p
      → has_prefix s p ≡ true
  unfolding sketch_loop
  stops n at_start pc i p s g o e =
      let run : sketch_loop utf8 prog (suc n) at_start pc ≡ some [] = rw (sketch_loop, g, o) refl in
      let h : p ≡ [] = cc in rw h refl

  goes_on :
      (n : ℕ) (at_start : Bool) (pc : ℕ) (i : Inst) (b : Bytes) (later : Bool) (p : Bytes)
      → get_elem? prog pc ≡ some i
      → sketch_inst utf8 i.op i at_start ≡ some (b, later)
      → sketch_loop utf8 prog (suc n) at_start pc ≡ some p
      → append_to utf8 b (sketch_loop utf8 prog n later i.out) ≡ some p
  unfolding sketch_loop
  goes_on n at_start pc i b later p g o e =
      let run : sketch_loop utf8 prog (suc n) at_start pc
          ≡ append_to utf8 b (sketch_loop utf8 prog n later i.out) =
        rw (sketch_loop, g, o) refl in
      sym run ∙ e

  append-has_prefix :
      (b s p : Bytes) (o : Option Bytes)
      → append_to utf8 b o ≡ some p
      → ((q : Bytes) → o ≡ some q → has_prefix s q ≡ true)
      → has_prefix (b ++ s) p ≡ true
  append-has_prefix b s p none e k = cc
  append-has_prefix b s p (some q) e k =
      let h : p ≡ b ++ q = cc in rw h (has_prefix_cancel b s q ∙ k q refl)

  took-has_prefix :
      (l : Option ℕ) (n : ℕ) (at_start : Bool) (pc : ℕ) (i : Inst) (r : ℕ) (p s : Bytes)
      → get_elem? prog pc ≡ some i
      → IsRuneOp i.op
      → consumes i r ≡ true
      → literal_rune i.fold_case i.runes ≡ l
      → sketch_loop utf8 prog (suc n) at_start pc ≡ some p
      → ((q : Bytes) → sketch_loop utf8 prog n false i.out ≡ some q → has_prefix s q ≡ true)
      → has_prefix (utf8 r ++ s) p ≡ true
  took-has_prefix none n at_start pc i r p s g o c l e k =
      stops n at_start pc i p (utf8 r ++ s) g (rune_inst i.op i at_start o ∙ ap (write_rune utf8) l)
        e
  took-has_prefix (some r0) n at_start pc i r p s g o c l e k =
      let written =
        goes_on n at_start pc i (utf8 r0) false p g
          (rune_inst i.op i at_start o ∙ ap (write_rune utf8) l) e in
      let (plain, alone) = literal_rune-some i.fold_case i.runes r0 l in
      rw (literal i r0 r plain alone c)
        (append-has_prefix (utf8 r0) s p (sketch_loop utf8 prog n false i.out) written k)

  -- What the loop writes begins every text that the program takes.
  pub sketch_loop-has_prefix :
      (n : ℕ) (at_start : Bool) (pc : ℕ) (p s : Bytes)
      → sketch_loop utf8 prog n at_start pc ≡ some p
      → Accepts utf8 consumes prog pc s
      → has_prefix s p ≡ true
  unfolding sketch_loop
  sketch_loop-has_prefix zero at_start pc p s e a = cc
  sketch_loop-has_prefix (suc n) at_start _ p _ e (ended pc i s g o) =
      stops n at_start pc i p s g (ap (λ op. sketch_inst utf8 op i at_start) o) e
  sketch_loop-has_prefix (suc n) at_start _ p _ e (skipped pc i s g o a) =
      elim (skip_inst i.op i at_start o) [
        | inl go ↦
            append-has_prefix [] s p (sketch_loop utf8 prog n at_start i.out)
              (goes_on n at_start pc i [] at_start p g go e)
              (λ q f. sketch_loop-has_prefix n at_start i.out q s f a)
        | inr stop ↦ stops n at_start pc i p s g stop e
      ]
  sketch_loop-has_prefix (suc n) at_start _ p _ e (took pc i r s g o c a) =
      took-has_prefix (literal_rune i.fold_case i.runes) n at_start pc i r p s g o c refl e
        (λ q f. sketch_loop-has_prefix n false i.out q s f a)
  sketch_loop-has_prefix (suc n) at_start _ p _ e (chose pc i next s g o w a) =
      stops n at_start pc i p s g (alt_inst i.op i at_start o) e
