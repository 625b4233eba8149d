-- ===== src/Web/RegexpPattern/Sketch/Keeps.antt =====
-- web/regexp_pattern.go: a pattern keeps to the prefix that `sketchOnRegex` gives it.
use goji.Prelude.{ℕ, ◌≡◌, refl, Bool, true, false, Option, none, some, List, [], ◌∷◌}
use goji.Prelude.Bytes.{Bytes, has_prefix}
use goji.Web.Router.Naive.{KeepsPrefix}
use goji.Web.RegexpPattern.{RegexpPattern, as_pattern, regexp-KeepsPrefix}
use goji.Web.RegexpPattern.Sketch.{
  Inst, sketch_loop, Prog, sketch_on_regex, sketch_parsed, sketch_prog, with_re, left_anchored,
}
use goji.Web.RegexpPattern.Sketch.Prefix.{Accepts, sketch_loop-has_prefix}

module _ (utf8 : ℕ → Bytes) (consumes : Inst → ℕ → Bool) (program : Bytes → Option Prog)
    (compiles : Bytes → Bool) (find : Bytes → Bytes → Option (List Bytes))
    (literal : (i : Inst) (r r' : ℕ)
      → i.fold_case ≡ false
      → i.runes ≡ r ∷ []
      → consumes i r' ≡ true
      → r' ≡ r) where
  empty-KeepsPrefix :
      {H : Type 0} (p : RegexpPattern)
      → p.prefix ≡ []
      → KeepsPrefix (as_pattern {H = H} (find p.re) p)
  empty-KeepsPrefix p e r c miss = let t : has_prefix r.path p.prefix ≡ true = rw e refl in cc

  missed :
      (prog : Prog) (n : ℕ) (p : RegexpPattern) (path : Bytes) (o : Option (List Bytes))
      → sketch_loop utf8 prog.insts n true prog.start ≡ some p.prefix
      → ((groups : List Bytes) → o ≡ some groups → Accepts utf8 consumes prog.insts prog.start path)
      → has_prefix path p.prefix ≡ false
      → o ≡ none
  missed prog n p path none e sound miss = refl
  missed prog n p path (some groups) e sound miss =
      let found =
        sketch_loop-has_prefix utf8 consumes prog.insts literal n true prog.start p.prefix path e
          (sound groups refl) in
      cc

  sketched-KeepsPrefix :
      {H : Type 0} (prog : Prog) (n : ℕ) (p : RegexpPattern)
      → sketch_loop utf8 prog.insts n true prog.start ≡ some p.prefix
      → ((path : Bytes) (groups : List Bytes)
          → find p.re path ≡ some groups
          → Accepts utf8 consumes prog.insts prog.start path)
      → KeepsPrefix (as_pattern {H = H} (find p.re) p)
  sketched-KeepsPrefix prog n p e sound =
      regexp-KeepsPrefix (find p.re) p
        (λ path miss. missed prog n p path (find p.re path) e (sound path) miss)

  with_re-prefix :
      (re : Bytes) (o : Option Bytes) (re' q : Bytes)
      → with_re utf8 program compiles re o ≡ some (re', q)
      → o ≡ some q
  with_re-prefix re none re' q e = cc
  with_re-prefix re (some q') re' q e = cc

  with_re-re :
      (re : Bytes) (o : Option Bytes) (re' q : Bytes)
      → with_re utf8 program compiles re o ≡ some (re', q)
      → some re ≡ some re'
  with_re-re re none re' q e = cc
  with_re-re re (some q') re' q e = cc

  sketch_prog-KeepsPrefix :
      {H : Type 0} (n : ℕ) (raw : Bytes) (prog : Prog) (re : Option Bytes) (p : RegexpPattern)
      → sketch_prog utf8 program compiles n raw prog re ≡ some (p.re, p.prefix)
      → ((path : Bytes) (groups : List Bytes)
          → re ≡ some p.re
          → find p.re path ≡ some groups
          → Accepts utf8 consumes prog.insts prog.start path)
      → KeepsPrefix (as_pattern {H = H} (find p.re) p)
  sketch_prog-KeepsPrefix n raw prog none p e sound =
      let h : p.prefix ≡ [] = cc in empty-KeepsPrefix p h
  sketch_prog-KeepsPrefix n raw prog (some re) p e sound =
      sketched-KeepsPrefix prog n p
        (with_re-prefix re (sketch_loop utf8 prog.insts n true prog.start) p.re p.prefix e)
        (λ path groups f.
          sound path groups
            (with_re-re re (sketch_loop utf8 prog.insts n true prog.start) p.re p.prefix e) f)

  sketch_parsed-KeepsPrefix :
      {H : Type 0} (n : ℕ) (raw : Bytes) (o : Option Prog) (p : RegexpPattern)
      → sketch_parsed utf8 program compiles n raw o ≡ some (p.re, p.prefix)
      → ((prog : Prog) (path : Bytes) (groups : List Bytes)
          → o ≡ some prog
          → left_anchored utf8 program compiles raw prog ≡ some p.re
          → find p.re path ≡ some groups
          → Accepts utf8 consumes prog.insts prog.start path)
      → KeepsPrefix (as_pattern {H = H} (find p.re) p)
  sketch_parsed-KeepsPrefix n raw none p e sound =
      let h : p.prefix ≡ [] = cc in empty-KeepsPrefix p h
  sketch_parsed-KeepsPrefix n raw (some prog) p e sound =
      sketch_prog-KeepsPrefix n raw prog (left_anchored utf8 program compiles raw prog) p e
        (λ path groups a f. sound prog path groups refl a f)

  -- Where the text of every match of the left-anchored expression is one that the program takes from
  -- its start: the pattern that `sketchOnRegex` makes keeps to its prefix, also where it fell back
  -- to the empty one.
  pub sketch_on_regex-KeepsPrefix :
      {H : Type 0} (n : ℕ) (raw : Bytes) (p : RegexpPattern)
      → sketch_on_regex utf8 program compiles n raw ≡ some (p.re, p.prefix)
      → ((prog : Prog) (path : Bytes) (groups : List Bytes)
          → program raw ≡ some prog
          → left_anchored utf8 program compiles raw prog ≡ some p.re
          → find p.re path ≡ some groups
          → Accepts utf8 consumes prog.insts prog.start path)
      → KeepsPrefix (as_pattern {H = H} (find p.re) p)
  unfolding sketch_on_regex
  sketch_on_regex-KeepsPrefix n raw p e sound =
      sketch_parsed-KeepsPrefix n raw (program raw) p e sound
