-- ===== src/Web/Router/Search.antt =====
-- web/router.go: `getMatch` on one router.
use goji.Prelude.{◌≡◌, refl, sym, ◌∙◌, ap₂, subst, Option, none, some, List, keep}
use goji.Web.Method.{Method, http_method}
use goji.Web.Route.{Request, Pattern, Route, plausible, scan}
use goji.Web.Context.{Context}
use goji.Web.Bytecode.Trie.Hits.{IsOrdered}
use goji.Web.Bytecode.Encode.{compile}
use goji.Web.Bytecode.Runner
use goji.Web.Bytecode.Correct.{route-compile}
use goji.Web.Router.{
  RouteMachine, Router, finished, handle, compile_router, or_compile, to_match, ended,
  get_match_for,
}

module _ {C H : Type 0} where
  -- A cached machine is the one of the routes.
  abbrev pub IsFresh : List (Route C H) → Option (RouteMachine C H) → Type 0
  IsFresh routes none = Unit
  IsFresh routes (some rm) = (rm.sm ≡ compile routes) × (rm.routes ≡ routes)

  pub record IsValid (rt : Router C H) : Type 0 where
    pub ordered : IsOrdered rt.routes
    pub fresh : IsFresh rt.routes rt.machine

  -- A call leaves the routes and the fallback handler alone, and the cached machine fresh.
  abbrev pub Keeps : Router C H → Router C H → Type 0
  Keeps rt rt' =
      (rt'.routes ≡ rt.routes) × (rt'.not_found ≡ rt.not_found) × IsFresh rt'.routes rt'.machine

  pub or_compile-IsFresh :
      (o : Option (RouteMachine C H)) (rt : Router C H)
      → rt.machine ≡ o
      → IsFresh rt.routes o
      → ((or_compile o rt).0.sm ≡ compile rt.routes)
        × ((or_compile o rt).0.routes ≡ rt.routes)
        × Keeps rt (or_compile o rt).1
  unfolding or_compile
  or_compile-IsFresh none rt e h = (refl, refl, (refl, refl, (refl, refl)))
  or_compile-IsFresh (some rm) rt e h =
      (h.0, h.1, (refl, refl, subst (IsFresh rt.routes) (sym e) h))

  pub compile_router-Keeps : (rt : Router C H) → Keeps rt (compile_router rt).1
  unfolding compile_router
  compile_router-Keeps rt = (refl, refl, (refl, refl))

  pub handle_drops :
      (rt : Router C H) (p : Pattern C) (m : Method) (h : H)
      → IsFresh (handle rt p m h).routes (handle rt p m h).machine
  unfolding handle
  handle_drops rt p m h = tt

module _ {H : Type 0} where
  -- On a valid router `getMatch` ends without a fault, and gives the match that the naive search
  -- through the plausible routes gives, with its context; the router stays valid with the same
  -- routes and fallback.
  pub get_match_for-scan :
      (rt : Router (Context H) H) (r : Request) (c : Context H)
      → IsValid rt
      → ((get_match_for rt r c).0
          ≡ finished (
              to_match rt.not_found
                (scan (http_method r.method) r (keep (plausible r.path) rt.routes) 0 c)))
        × Keeps rt (get_match_for rt r c).1
  unfolding get_match_for
  get_match_for-scan rt r c v =
      let (same_sm, same_routes, kept) = or_compile-IsFresh rt.machine rt refl v.fresh in
      let (rm, rt') = or_compile rt.machine rt in
      (
        ap₂ (λ nf o. ended nf o) kept.1
            (ap₂ (λ sm rs. Runner.route sm rs r c) same_sm same_routes
              ∙ route-compile rt.routes r c v.ordered),
        kept,
      )
