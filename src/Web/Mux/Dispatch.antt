-- ===== src/Web/Mux/Dispatch.antt =====
-- web/router.go: `route`, and the Router middleware of web/mux.go in front of it.
use goji.Prelude.{◌≡◌, refl, ◌∙◌, ap, Option, none, some, List, Bool-cases, inl, inr, All, ◌==◌}
use goji.Web.Method.{http_method}
use goji.Web.Route.{Request, Route, Found, scan}
use goji.Web.Context.{
  Context, Match, match_value, match_key, get_match, as_match, set_env, read-set_env,
}
use goji.Web.Router.{Router, to_match, get_match_for}
use goji.Web.Router.Naive.{new_router, LawfulRoute}
use goji.Web.Router.History.{Call, serve, added, get_match_for-in_order}
use goji.Web.Mux.{
  Handler, call_handler, after_match, routed, dispatch, some_env, store_match, router_middleware,
}

-- The stored match is the one that is read.
get_match-set_env :
    (m : Match Handler) (c : Context Handler) → get_match (set_env match_key (match_value m) c) ≡ m
unfolding get_match
get_match-set_env m c = ap as_match (read-set_env match_key match_key (match_value m) c)

-- A match always has a handler: a route's, or the fallback.
to_match-handler :
    (nf : Handler) (f : Found (Context Handler) (Option (Route (Context Handler) Handler)))
    → (h : Handler) × ((to_match nf f).0.handler ≡ some h)
unfolding to_match
to_match-handler nf f = of_result f.result refl
  where
    of_result :
        (o : Option (Route (Context Handler) Handler))
        → f.result ≡ o
        → (h : Handler) × ((to_match nf f).0.handler ≡ some h)
    of_result none e = elim (Bool-cases (f.methods == 0)) [
      | inl zero_methods ↦ (nf, rw (e, zero_methods))
      | inr some_methods ↦ (nf, rw (e, some_methods))
    ]
    of_result (some r) e = (r.handler, rw e)

-- What the search through the routes in the order of their additions gives, or the fallback.
abbrev pub naive :
    Handler → List (Call Handler) → Request → Context Handler → Match Handler × Context Handler
naive nf cs r c = to_match nf (scan (http_method r.method) r (added cs) 0 c)

module _ {W : Type 0} (respond : Handler → Context Handler → Request → W → W) where
  module _ (nf : Handler) (cs : List (Call Handler)) (r : Request) (c : Context Handler) (w : W)
      (lawful : All LawfulRoute (added cs)) where
    abbrev router : Router (Context Handler) Handler
    router = serve (new_router nf) cs

    abbrev first : Context Handler → Match Handler × Context Handler
    first c' = naive nf cs r c'

    dispatch-naive :
        (get_match c).handler ≡ none
        → dispatch respond r (c, (router, some w))
          ≡ call_handler respond (first c).0.handler (first c).1 r (get_match_for router r c).1 w
    unfolding dispatch
    dispatch-naive fresh =
        ap (λ o. routed respond o router r c w) fresh
        ∙ ap (λ o. after_match respond (o, (get_match_for router r c).1) c r w)
            (get_match_for-in_order nf cs r c lawful)

    -- A router after any history of `handle`, `Compile` and requests, with patterns that keep to their
    -- prefix, and a context without a stored match: the request is answered, by the handler of the first
    -- route in the order of the additions that matches, or else by the fallback, and with the context
    -- that the search leaves.
    pub dispatch-in_order :
        (get_match c).handler ≡ none
        → (h : Handler) × ((first c).0.handler ≡ some h)
          × (dispatch respond r (c, (router, some w))
              ≡ ((first c).1, ((get_match_for router r c).1, some (respond h (first c).1 r w))))
    dispatch-in_order fresh =
        let (h, e) = to_match-handler nf (scan (http_method r.method) r (added cs) 0 c) in
        (
          h,
          e,
          dispatch-naive fresh
              ∙ ap (λ o. call_handler respond o (first c).1 r (get_match_for router r c).1 w) e,
        )

    -- With the middleware `Router` in front, for a router after any history with patterns that keep to
    -- their prefix, and any context: the search is made once, its match is stored in the environment, and the handler of that match answers, with the
    -- stored match in its context. The routing at the end of the stack does not search again.
    pub router_middleware-once :
        let c' = some_env c in
        let found = set_env match_key (match_value (first c').0) (first c').1 in
        (h : Handler) × ((first c').0.handler ≡ some h)
        × (get_match found ≡ (first c').0)
        × (router_middleware respond (dispatch respond) r (c, (router, some w))
            ≡ (found, ((get_match_for router r c').1, some (respond h found r w))))
    unfolding router_middleware dispatch
    router_middleware-once =
        let c' = some_env c in
        let found = set_env match_key (match_value (first c').0) (first c').1 in
        let rt' = (get_match_for router r c').1 in
        let (h, e) = to_match-handler nf (scan (http_method r.method) r (added cs) 0 c') in
        let stored = get_match-set_env (first c').0 (first c').1 in
        (
          h,
          e,
          stored,
          ap (λ o. store_match respond (dispatch respond) (o, rt') c' r w)
                (get_match_for-in_order nf cs r c' lawful)
              ∙ ap (λ o. routed respond o rt' r found w) (ap (λ m. m.handler) stored ∙ e),
        )
