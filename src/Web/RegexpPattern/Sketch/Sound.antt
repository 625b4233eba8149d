-- ===== src/Web/RegexpPattern/Sketch/Sound.antt =====
-- web/regexp_pattern.go: `sketchOnRegex` returns, and its prefix is one of the pattern.
use goji.Prelude.{ℕ, ◌≡◌, ◌≢◌, ◌<◌, true, false, Option, none, some, List, get_elem?}
use goji.Prelude.Bytes.{Bytes}
use goji.Web.RegexpPattern.{as_pattern}
use goji.Web.Router.Naive.{KeepsPrefix}
use goji.Web.RegexpPattern.Sketch.{Prog}
use goji.Web.RegexpPattern.Sketch.Ends.{IsOrdered}

-- A compiled program, with fuel for it: where it starts is inside, and a cycle has an alternative.
pub record IsRunnable (rank : ℕ → ℕ) (n : ℕ) (prog : Prog) : Type 0 where
  pub ordered : IsOrdered rank prog.insts
  pub enough : rank prog.start < n
  pub inside : get_elem? prog.insts prog.start ≢ none

-- What the pattern with that expression and prefix owes the router; no result is none of it.
abbrev pub KeepsSketched :
    Type 0 → (Bytes → Bytes → Option (List Bytes)) → List Bytes → Option (Bytes × Bytes) → Type 0
KeepsSketched H find names none = true ≡ false
KeepsSketched H find names (some (re, prefix)) =
    KeepsPrefix (as_pattern {H = H} (find re) (record { re = re; prefix = prefix; names = names }))
