-- ===== src/Web/Router.antt =====
-- web/router.go: the router, its list of routes and its compiled machine. The lock is left out:
-- each operation runs alone.
pub mod Insertion
pub mod Order
pub mod Naive
pub mod Search
pub mod History
pub mod Concurrent
mod Tests
use Prim.Native.Nat.{bit_and}
use goji.Prelude.{
  ℕ, zero, suc, Bool, true, false, Option, none, some, List, [], ◌∷◌, ◌++◌, length, get_elem?, take,
  drop, ◌==◌, if◌then◌else◌, map,
}
use goji.Prelude.Bytes.{Bytes, str_le}
use goji.Web.Method.{Method, valid_methods_map}
use goji.Web.Route.{Request, Pattern, Route, Found, stays_before}
use goji.Web.Context.{Context, Match, methods_value, set_env, get_match, valid_methods_key}
use goji.Web.Bytecode.{StateMachine}
use goji.Web.Bytecode.Encode.{compile}
use goji.Web.Bytecode.Runner
use goji.Web.Bytecode.Runner.{Config, running, returned, panic}

-- `routeMachine`
pub record RouteMachine (C H : Type 0) : Type 0 where
  pub sm : StateMachine
  pub routes : List (Route C H)

pub record Router (C H : Type 0) : Type 0 where
  pub routes : List (Route C H)
  pub not_found : H
  pub machine : Option (RouteMachine C H)

-- `sort.Strings`
insert_string : Bytes → List Bytes → List Bytes
insert_string s [] = s ∷ []
insert_string s (t ∷ ts) = if str_le s t then s ∷ t ∷ ts else t ∷ insert_string s ts

sort_strings : List Bytes → List Bytes
unfolding insert_string
sort_strings [] = []
sort_strings (s ∷ ss) = insert_string s (sort_strings ss)

-- The loop over `validMethodsMap`.
allowed : Method → List (Bytes × Method) → List Bytes
allowed ms [] = []
allowed ms ((name, m) ∷ rest) =
    if bit_and ms m == 0 then allowed ms rest else name ∷ allowed ms rest

-- The sorted names of the methods in a set.
unfoldable pub methods_list : Method → List Bytes
unfolding allowed sort_strings
methods_list ms = sort_strings (allowed ms valid_methods_map)

module _ {C H : Type 0} where
  -- `rip <= pp || strings.HasPrefix(rip, pp)` for the route at an index.
  abbrev pub stays_at : Option (Route C H) → Bytes → Bool
  stays_at none pp = true
  stays_at (some r) pp = stays_before r.prefix pp

  -- The loop of `handle`: `i` counts down while the route before it has to move.
  unfoldable pub insertion_point : List (Route C H) → Bytes → ℕ → ℕ
  insertion_point routes pp zero = 0
  insertion_point routes pp (suc i) =
      let further = insertion_point routes pp i in
      if stays_at (get_elem? routes i) pp then suc i else further

  -- The route that `handle` makes of its arguments.
  abbrev pub new_route : Pattern C → Method → H → Route C H
  new_route p m h = record { prefix = p.prefix; method = m; pattern = p; handler = h }

  -- `router.handle`: the new route goes to its place, and the machine is dropped.
  unfoldable pub handle : Router C H → Pattern C → Method → H → Router C H
  handle rt p m h =
      let i = insertion_point rt.routes p.prefix (length rt.routes) in
      record rt { routes = take i rt.routes ++ new_route p m h ∷ drop i rt.routes; machine = none }

  -- `router.compile`
  unfoldable pub compile_router : Router C H → RouteMachine C H × Router C H
  compile_router rt =
      let rm : RouteMachine C H = record { sm = compile rt.routes; routes = rt.routes } in
      (rm, record rt { machine = some rm })

  -- `if rm == nil { rm = rt.compile() }`
  unfoldable pub or_compile : Option (RouteMachine C H) → Router C H → RouteMachine C H × Router C H
  unfolding compile_router
  or_compile none rt = compile_router rt
  or_compile (some rm) rt = (rm, rt)

  -- `rm := rt.getMachine()` and that line.
  unfoldable pub get_machine : Router C H → RouteMachine C H × Router C H
  unfolding or_compile
  get_machine rt = or_compile rt.machine rt

-- The outcome of a search: a match, the context and the router, or a fault of the machine.
pub data Outcome (A : Type 0) : Type 0 where
  finished : A → Outcome A
  faulted : Outcome A

module _ {H : Type 0} where
  -- What `getMatch` makes of the result of the machine.
  unfoldable pub to_match :
      H → Found (Context H) (Option (Route (Context H) H)) → Match H × Context H
  to_match nf f = elim f.result [
    | some r ↦ (record { pattern = some r.pattern.raw; handler = some r.handler }, f.context)
    | none ↦ if f.methods == 0 then (record { pattern = none; handler = some nf }, f.context) else (
      record { pattern = none; handler = some nf },
      set_env valid_methods_key (methods_value (methods_list f.methods)) f.context,
    )
  ]

  abbrev pub ended : H → Config (Context H) H → Outcome (Match H × Context H)
  ended nf (returned f) = finished (to_match nf f)
  ended nf _ = faulted

  -- `router.getMatch`
  unfoldable pub get_match_for :
      Router (Context H) H
      → Request
      → Context H
      → Outcome (Match H × Context H) × Router (Context H) H
  unfolding get_machine
  get_match_for rt r c =
      let (rm, rt') = get_machine rt in
      (ended rt'.not_found (Runner.route rm.sm rm.routes r c), rt')
