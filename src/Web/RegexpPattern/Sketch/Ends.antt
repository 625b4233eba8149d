-- ===== src/Web/RegexpPattern/Sketch/Ends.antt =====
-- web/regexp_pattern.go: the loop of `sketchOnRegex` comes to its end.
use goji.Prelude.{
  ℕ, zero, suc, ◌≡◌, ◌≢◌, ◌<◌, arith, refl, Bool, true, false, Option, none, some, List, get_elem?,
}
use goji.Prelude.Bytes.{Bytes}
use goji.Web.RegexpPattern.Sketch.{
  InstOp, inst_alt, inst_alt_match, inst_capture, inst_empty_width, inst_match, inst_fail, inst_nop,
  inst_rune, inst_rune1, inst_rune_any, inst_rune_any_not_nl, Inst, sketch_inst, append_to,
  sketch_loop,
}

-- The operations with one way on.
abbrev pub has_one_way : InstOp → Bool
has_one_way inst_alt = false
has_one_way inst_alt_match = false
has_one_way inst_match = false
has_one_way inst_fail = false
has_one_way _ = true

-- Every way through instructions with one way on gets lower in `rank` and stays in the program: a
-- cycle of a program has an alternative in it.
pub record IsOrdered (rank : ℕ → ℕ) (prog : List Inst) : Type 0 where
  pub lower :
      (pc : ℕ) (i : Inst)
      → get_elem? prog pc ≡ some i
      → has_one_way i.op ≡ true
      → rank i.out < rank pc
  pub inside :
      (pc : ℕ) (i : Inst)
      → get_elem? prog pc ≡ some i
      → has_one_way i.op ≡ true
      → get_elem? prog i.out ≢ none

module _ (utf8 : ℕ → Bytes) (rank : ℕ → ℕ) (prog : List Inst) (ordered : IsOrdered rank prog) where
  going_on :
      (op : InstOp) (i : Inst) (at_start : Bool) (x : Bytes × Bool)
      → sketch_inst utf8 op i at_start ≡ some x
      → has_one_way op ≡ true
  going_on inst_alt i at_start x e = cc
  going_on inst_alt_match i at_start x e = cc
  going_on inst_match i at_start x e = cc
  going_on inst_fail i at_start x e = cc
  going_on inst_capture i at_start x e = refl
  going_on inst_empty_width i at_start x e = refl
  going_on inst_nop i at_start x e = refl
  going_on inst_rune i at_start x e = refl
  going_on inst_rune1 i at_start x e = refl
  going_on inst_rune_any i at_start x e = refl
  going_on inst_rune_any_not_nl i at_start x e = refl

  append_to-none : (b : Bytes) (o : Option Bytes) → o ≢ none → append_to utf8 b o ≢ none
  append_to-none b none h e = h refl
  append_to-none b (some q) h e = cc

  after_inst :
      (n : ℕ) (at_start : Bool) (pc : ℕ) (i : Inst) (x : Option (Bytes × Bool))
      → get_elem? prog pc ≡ some i
      → sketch_inst utf8 i.op i at_start ≡ x
      → rank pc < suc n
      → ((later : Bool) (next : ℕ)
          → rank next < n
          → get_elem? prog next ≢ none
          → sketch_loop utf8 prog n later next ≢ none)
      → sketch_loop utf8 prog (suc n) at_start pc ≢ none
  unfolding sketch_loop
  after_inst n at_start pc i none g o h k = rw (sketch_loop, g, o) (λ e. cc)
  after_inst n at_start pc i (some (b, later)) g o h k =
      let one = going_on i.op i at_start (b, later) o in
      let low = ordered.lower pc i g one in
      rw (sketch_loop, g, o)
        (append_to-none b (sketch_loop utf8 prog n later i.out)
          (k later i.out (omega (arith, low, h)) (ordered.inside pc i g one)))

  at_inst :
      (n : ℕ) (at_start : Bool) (pc : ℕ) (g : Option Inst)
      → get_elem? prog pc ≡ g
      → g ≢ none
      → rank pc < suc n
      → ((later : Bool) (next : ℕ)
          → rank next < n
          → get_elem? prog next ≢ none
          → sketch_loop utf8 prog n later next ≢ none)
      → sketch_loop utf8 prog (suc n) at_start pc ≢ none
  at_inst n at_start pc none e s h k = elim (s refl) [ ]
  at_inst n at_start pc (some i) e s h k =
      after_inst n at_start pc i (sketch_inst utf8 i.op i at_start) e refl h k

  -- With fuel above the rank of where it starts, the loop comes to its end.
  pub sketch_loop-ends :
      (n : ℕ) (at_start : Bool) (pc : ℕ)
      → rank pc < n
      → get_elem? prog pc ≢ none
      → sketch_loop utf8 prog n at_start pc ≢ none
  sketch_loop-ends zero at_start pc h s = omega (arith, h)
  sketch_loop-ends (suc n) at_start pc h s =
      at_inst n at_start pc (get_elem? prog pc) refl s h
        (λ later next l f. sketch_loop-ends n later next l f)
