-- ===== src/Web/RegexpPattern/Sketch/Tests.antt =====
-- web/regexp_pattern.go: the sketch of the expression `\B/a`.
use goji.Prelude.{ℕ, ◌==◌, Bool, true, false, Option, none, some, List, [], ◌∷◌, if◌then◌else◌, ◌-◌}
use goji.Prelude.Bytes.{Bytes, codes, has_prefix}
use goji.Web.RegexpPattern.Sketch.{
  InstOp, inst_empty_width, inst_match, inst_fail, inst_rune1, Inst, Prog,
}

abbrev inst : InstOp → ℕ → List ℕ → Inst
inst op out runes = record { op = op; out = out; fold_case = false; other = 0; runes = runes }

abbrev insts : List Inst
insts =
    inst inst_fail 0 []
    ∷ inst inst_empty_width 2 []
    ∷ inst inst_rune1 3 (47 ∷ [])
    ∷ inst inst_rune1 4 (97 ∷ [])
    ∷ inst inst_match 0 []
    ∷ []

abbrev a_prog : Prog
a_prog = record { insts = insts; start = 1; begin_text = false }

abbrev program : Bytes → Option Prog
program raw = some a_prog

abbrev compiles : Bytes → Bool
compiles raw = true

abbrev one_byte : ℕ → Bytes
one_byte r = r ∷ []

-- An instruction with one rune takes that rune.
abbrev takes : List ℕ → ℕ → Bool
takes (q ∷ []) r = r == q
takes _ r = true

abbrev consumes : Inst → ℕ → Bool
consumes i r = takes i.runes r

abbrev find : Bytes → Bytes → Option (List Bytes)
find re path = if has_prefix path (47 ∷ 97 ∷ []) then some ((47 ∷ 97 ∷ []) ∷ []) else none

abbrev raw : Bytes
raw = codes "\\B/a"

-- The steps from an instruction to the end.
abbrev rank : ℕ → ℕ
rank pc = 5 - pc
