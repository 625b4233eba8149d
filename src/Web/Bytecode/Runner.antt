-- ===== src/Web/Bytecode/Runner.antt =====
-- web/bytecode_runner.go: the loop that runs the machine, one instruction at a time.
pub mod Reach
pub mod Instructions
use Prim.Native.Nat.{ℕ}
use goji.Prelude.{
  zero, suc, ◌+◌, Bool, true, false, not, ◌&&◌, Option, none, some, List, [], ◌∷◌, length,
  get_elem?, get_or, drop, leb, ◌==◌, if◌then◌else◌,
}
use goji.Prelude.Bytes.{Bytes}
use goji.Web.Method.{Method, http_method}
use goji.Web.Route.{Request, Route, Found, match_route}
use goji.Web.Bytecode.{Mode, Index, at, minus_one, Chunk, State, StateMachine}

-- The `switch` on the length: the bytes are compared from the last to the first.
abbrev same_bytes : ℕ → Chunk → Bytes → Bool
same_bytes (suc (suc (suc zero))) bs p =
    get_or p 2 0 == bs.b2 && (get_or p 1 0 == bs.b1 && get_or p 0 0 == bs.b0)
same_bytes (suc (suc zero)) bs p = get_or p 1 0 == bs.b1 && get_or p 0 0 == bs.b0
same_bytes (suc zero) bs p = get_or p 0 0 == bs.b0
same_bytes zero bs p = true
same_bytes _ bs p = false

abbrev pub chunk_matches : ℕ → Chunk → Bytes → Bool
chunk_matches len bs p = leb len (length p) && same_bytes len bs p

-- The variables of the loop, or how it ended: `panic` is an index or a slice out of range.
pub data Config (C H : Type 0) : Type 0 where
  running : ℕ → Bytes → Method → C → Config C H
  returned : Found C (Option (Route C H)) → Config C H
  panic : Config C H

-- How a run goes on behind the trial of a route: it returns, or goes on as `k` says.
abbrev pub settle :
    {C H : Type 0} → Route C H → Found C Bool → (Method → C → Config C H) → Config C H
settle rt t k =
    if t.result
    then returned (record { methods = 0; result = some rt; context = t.context })
    else k t.methods t.context

-- `matchRoute(rm.routes[si], …)`, and `return 0, &rm.routes[si]` where it holds.
unfoldable pub attempt :
    {C H : Type 0}
    → Request
    → Option (Route C H)
    → Method
    → C
    → (Method → C → Config C H)
    → Config C H
attempt r none ms c k = panic
attempt r (some rt) ms c k = settle rt (match_route rt (http_method r.method) ms r c) k

module _ {C H : Type 0} (sm : StateMachine) (routes : List (Route C H)) (r : Request) where
  -- `rm.routes[si]` and `matchRoute`
  try_route : ℕ → Bytes → Method → C → Index → Config C H
  unfolding attempt
  try_route i p ms c minus_one = panic
  try_route i p ms c (at si) =
      attempt r (get_elem? routes si) ms c (λ ms' c'. running (i + 1) p ms' c')

  -- `i = int(rm.sm[i].i)`
  abbrev jump : Index → Bytes → Method → C → Config C H
  jump minus_one p ms c = panic
  jump (at n) p ms c = running n p ms c

  -- `p = r.URL.Path[si:]`
  abbrev set_cursor : ℕ → Method → C → Index → Config C H
  set_cursor i ms c minus_one = panic
  set_cursor i ms c (at si) =
      if leb si (length r.path) then running (i + 1) (drop si r.path) ms c else panic

  -- The three ways on behind the comparison.
  branch : State → Bool → ℕ → Bytes → Method → C → Config C H
  unfolding try_route
  branch s matched i p ms c =
      if matched && s.mode.route
      then try_route i p ms c s.i
      else if (if matched then not (not s.mode.jump_on_match) else not s.mode.jump_on_match)
      then (if s.mode.fail
          then returned (record { methods = ms; result = none; context = c })
          else jump s.i p ms c)
      else running (i + 1) p ms c

  execute : State → ℕ → Bytes → Method → C → Config C H
  unfolding branch
  execute s i p ms c =
      if s.mode.set_cursor
      then set_cursor i ms c s.i
      else if chunk_matches s.mode.length_mask s.bs p
      then branch s true i (drop s.mode.length_mask p) ms c
      else branch s false i p ms c

  -- `rm.sm[i]`
  fetch : Option State → ℕ → Bytes → Method → C → Config C H
  unfolding execute
  fetch none i p ms c = panic
  fetch (some s) i p ms c = execute s i p ms c

  -- One round of the loop.
  pub step : Config C H → Config C H
  unfolding fetch
  step (running i p ms c) = fetch (get_elem? sm i) i p ms c
  step (returned o) = returned o
  step panic = panic

  pub steps : ℕ → Config C H → Config C H
  steps zero k = k
  steps (suc n) k = steps n (step k)

-- `routeMachine.route`. The fuel is one round for each state of the machine, and one more.
unfoldable pub route : {C H : Type 0} → StateMachine → List (Route C H) → Request → C → Config C H
unfolding steps step
route [] routes r c = returned (record { methods = 0; result = none; context = c })
route (s ∷ sm) routes r c = steps (s ∷ sm) routes r (length (s ∷ sm) + 1) (running 0 r.path 0 c)
