-- ===== src/Web/Route.antt =====
-- web/pattern.go and web/router.go: patterns, method sets and routes; web/bytecode_runner.go: the
-- trial of one route.
use Prim.Native.Nat.{bit_and, bit_or}
use goji.Prelude.{
  ℕ, ◌==◌, ◌||◌, if◌then◌else◌, Bool, true, false, Option, none, some, List, [], ◌∷◌,
}
use goji.Web.Method.{Method}
use goji.Prelude.Bytes.{Bytes, has_prefix, str_le}

-- The parts of `http.Request` that routing reads.
pub record Request : Type 0 where
  pub method : Bytes
  pub path : Bytes

-- What `ParsePattern` was given: a string, a regular expression by its source, or a value that
-- implements `Pattern`, by a number of its own.
pub data PatternType : Type 0 where
  string_type : Bytes → PatternType
  regexp_type : Bytes → PatternType
  pattern_type : ℕ → PatternType

-- The interface `Pattern`, with the raw value that `Match.RawPattern` gives back. `match` and `run` are handed a pointer to the context, so both return
-- the context that they leave.
pub record Pattern (C : Type 0) : Type 0 where
  pub raw : PatternType
  pub prefix : Bytes
  pub match : Request → C → Bool × C
  pub run : Request → C → C

pub record Route (C H : Type 0) : Type 0 where
  pub prefix : Bytes
  pub method : Method
  pub pattern : Pattern C
  pub handler : H

-- What one trial, or a whole search, leaves: the methods met so far, and the context.
pub record Found (C A : Type 0) : Type 0 where
  pub methods : Method
  pub result : A
  pub context : C

module _ {C H : Type 0} where
  -- `*ms |= route.method`, then the test of the method, and `Run` where it passes.
  abbrev tried : Route C H → Method → Method → Request → C → Found C Bool
  tried rt m ms r c =
      if bit_and rt.method m == 0
      then record { methods = bit_or ms rt.method; result = false; context = c }
      else record { methods = bit_or ms rt.method; result = true; context = rt.pattern.run r c }

  unfoldable pub match_route : Route C H → Method → Method → Request → C → Found C Bool
  match_route rt m ms r c =
      let (hit, c') = rt.pattern.match r c in
      if hit then tried rt m ms r c' else record { methods = ms; result = false; context = c' }

  -- A route is plausible for a path that begins with its prefix.
  abbrev pub plausible : Bytes → Route C H → Bool
  plausible path rt = has_prefix path rt.prefix

  -- The naive router: the routes are tried one after another until one matches.
  unfoldable pub scan :
      Method → Request → List (Route C H) → Method → C → Found C (Option (Route C H))
  scan m r [] ms c = record { methods = ms; result = none; context = c }
  scan m r (rt ∷ rts) ms c =
      let t = match_route rt m ms r c in
      let rest = scan m r rts t.methods t.context in
      if t.result then record { methods = 0; result = some rt; context = t.context } else rest

-- `rip <= pp || strings.HasPrefix(rip, pp)`: a route with the prefix `rip` stays in front of a new
-- one with the prefix `pp`.
abbrev pub stays_before : Bytes → Bytes → Bool
stays_before rip pp = str_le rip pp || has_prefix rip pp
