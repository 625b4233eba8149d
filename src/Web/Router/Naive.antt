-- ===== src/Web/Router/Naive.antt =====
-- web/router.go: the naive router, and patterns that keep to their prefix.
use goji.Prelude.{
  ◌≡◌, refl, sym, ◌∙◌, ap, false, none, List, [], ◌∷◌, Bool-cases, inl, inr, All, keep,
}
use goji.Prelude.Bytes.{has_prefix}
use goji.Web.Method.{Method}
use goji.Web.Route.{Request, Pattern, Route, plausible, match_route, scan}
use goji.Web.Router.{Router}

-- The contract of `Pattern.Prefix`: on a path that does not begin with the prefix `Match` fails,
-- and leaves the context alone.
abbrev pub KeepsPrefix : {C : Type 0} → Pattern C → Type 0
KeepsPrefix {C} p =
    (r : Request) (c : C) → has_prefix r.path p.prefix ≡ false → p.match r c ≡ (false, c)

module _ {C H : Type 0} where
  -- The `router` that `web.New` makes.
  abbrev pub new_router : H → Router C H
  new_router nf = record { routes = []; not_found = nf; machine = none }

  abbrev pub LawfulRoute : Route C H → Type 0
  LawfulRoute rt = KeepsPrefix rt.pattern × (rt.prefix ≡ rt.pattern.prefix)

  match_route_miss :
      (rt : Route C H) (m ms : Method) (r : Request) (c : C)
      → LawfulRoute rt
      → has_prefix r.path rt.prefix ≡ false
      → match_route rt m ms r c ≡ record { methods = ms; result = false; context = c }
  unfolding match_route
  match_route_miss rt m ms r c (law, same) miss =
      rw (law r c (ap (has_prefix r.path) (sym same) ∙ miss))

  -- Patterns that keep to their prefix make the skipped routes of no account.
  pub scan-plausible :
      (rs : List (Route C H)) (m ms : Method) (r : Request) (c : C)
      → All LawfulRoute rs
      → scan m r (keep (plausible r.path) rs) ms c ≡ scan m r rs ms c
  unfolding scan
  scan-plausible [] m ms r c h = refl
  scan-plausible (rt ∷ rs) m ms r c (h, hs) = elim (Bool-cases (has_prefix r.path rt.prefix)) [
    | inl hit ↦
        let t = match_route rt m ms r c in rw (hit, scan-plausible rs m t.methods r t.context hs)
    | inr miss ↦ rw (miss, match_route_miss rt m ms r c h miss) (scan-plausible rs m ms r c hs)
  ]
