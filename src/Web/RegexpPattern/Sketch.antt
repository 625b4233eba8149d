-- ===== src/Web/RegexpPattern/Sketch.antt =====
-- web/regexp_pattern.go: the loop of `sketchOnRegex`, on the program that package regexp/syntax
-- compiles. `utf8` is the encoding of a rune.
pub mod Prefix
pub mod Keeps
pub mod Ends
pub mod Sound
mod Tests
use goji.Prelude.{
  ℕ, zero, suc, Bool, true, false, Option, none, some, List, [], ◌∷◌, ◌++◌, get_elem?,
  if◌then◌else◌,
}
use goji.Prelude.Bytes.{Bytes, codes}

-- `syntax.InstOp`
pub data InstOp : Type 0 where
  inst_alt : InstOp
  inst_alt_match : InstOp
  inst_capture : InstOp
  inst_empty_width : InstOp
  inst_match : InstOp
  inst_fail : InstOp
  inst_nop : InstOp
  inst_rune : InstOp
  inst_rune1 : InstOp
  inst_rune_any : InstOp
  inst_rune_any_not_nl : InstOp

-- `syntax.Inst`: `fold_case` is that flag of `Arg`, and `other` the second way of an alternative.
pub record Inst : Type 0 where
  pub op : InstOp
  pub out : ℕ
  pub fold_case : Bool
  pub other : ℕ
  pub runes : List ℕ

-- `len(i.Rune) != 1 || syntax.Flags(i.Arg)&syntax.FoldCase != 0`, and the rune where that is false.
abbrev pub literal_rune : Bool → List ℕ → Option ℕ
literal_rune true runes = none
literal_rune false [] = none
literal_rune false (r ∷ []) = some r
literal_rune false (r ∷ r' ∷ runes) = none

module _ (utf8 : ℕ → Bytes) where
  abbrev pub write_rune : Option ℕ → Option (Bytes × Bool)
  write_rune none = none
  write_rune (some r) = some (utf8 r, false)

  -- The body of the `switch`: what is written to `buf` and `atStart` afterwards, or `break Sadness`.
  abbrev pub sketch_inst : InstOp → Inst → Bool → Option (Bytes × Bool)
  sketch_inst inst_empty_width i true = some ([], true)
  sketch_inst inst_empty_width i false = none
  sketch_inst inst_capture i at_start = some ([], at_start)
  sketch_inst inst_nop i at_start = some ([], at_start)
  sketch_inst inst_rune i at_start = write_rune (literal_rune i.fold_case i.runes)
  sketch_inst inst_rune1 i at_start = write_rune (literal_rune i.fold_case i.runes)
  sketch_inst inst_rune_any i at_start = write_rune (literal_rune i.fold_case i.runes)
  sketch_inst inst_rune_any_not_nl i at_start = write_rune (literal_rune i.fold_case i.runes)
  sketch_inst _ i at_start = none

  abbrev pub append_to : Bytes → Option Bytes → Option Bytes
  append_to b none = none
  append_to b (some p) = some (b ++ p)

  -- The loop `Sadness` from `pc` on: what it writes to `buf`, or nothing where `pc` is outside of the
  -- program or the fuel is at its end.
  unfoldable pub sketch_loop : List Inst → ℕ → Bool → ℕ → Option Bytes
  sketch_loop prog zero at_start pc = none
  sketch_loop prog (suc n) at_start pc = elim (get_elem? prog pc) [
    | none ↦ none
    | some i ↦ elim (sketch_inst i.op i at_start) [
      | none ↦ some []
      | some (b, later) ↦ append_to b (sketch_loop prog n later i.out)
    ]
  ]

-- `syntax.Prog`, with the bit EmptyBeginText of `StartCond`.
pub record Prog : Type 0 where
  pub insts : List Inst
  pub start : ℕ
  pub begin_text : Bool

-- Package regexp: the program of an expression, after `syntax.Parse`, `Simplify` and
-- `syntax.Compile`, or none if one of them fails; and whether `regexp.Compile` succeeds.
module _ (utf8 : ℕ → Bytes) (program : Bytes → Option Prog) (compiles : Bytes → Bool) where
  abbrev anchored : Bytes → Bytes
  anchored raw = codes "\\A" ++ raw

  -- The expression that is used, or none after the third warning.
  abbrev pub left_anchored : Bytes → Prog → Option Bytes
  left_anchored raw prog =
      if prog.begin_text
      then some raw
      else if compiles (anchored raw)
      then some (anchored raw)
      else none

  abbrev pub with_re : Bytes → Option Bytes → Option (Bytes × Bytes)
  with_re re none = none
  with_re re (some prefix) = some (re, prefix)

  abbrev pub sketch_prog : ℕ → Bytes → Prog → Option Bytes → Option (Bytes × Bytes)
  sketch_prog n raw prog none = some (raw, [])
  sketch_prog n raw prog (some re) = with_re re (sketch_loop utf8 prog.insts n true prog.start)

  abbrev pub sketch_parsed : ℕ → Bytes → Option Prog → Option (Bytes × Bytes)
  sketch_parsed n raw none = some (raw, [])
  sketch_parsed n raw (some prog) = sketch_prog n raw prog (left_anchored raw prog)

  -- `sketchOnRegex`: the expression to use, and the prefix.
  unfoldable pub sketch_on_regex : ℕ → Bytes → Option (Bytes × Bytes)
  sketch_on_regex n raw = sketch_parsed n raw (program raw)
