-- ===== src/Web/Mux/Tests.antt =====
-- web/mux.go: a mux with string patterns, on concrete requests.
use goji.Prelude.{false, ◌≡◌, refl, none, some, List, [], ◌∷◌, All}
use goji.Prelude.Bytes.{codes}
use goji.Web.Method.{m_get, m_all}
use goji.Web.Route.{Request}
use goji.Web.Context.{Context, match_value, match_key, get_match, set_env}
use goji.Web.StringPattern.{StringPattern, as_pattern}
use goji.Web.StringPattern.Match.{as_pattern-KeepsPrefix}
use goji.Web.Router.{get_match_for}
use goji.Web.Router.Naive.{new_router, LawfulRoute}
use goji.Web.Router.History.{Call, handles, serve, added}
use goji.Web.Mux.{Handler, custom, dispatch, some_env, router_middleware, Served, serve_mux}
use goji.Web.MiddlewareStack.{HttpHandler, contextual, MStack, use_middleware, changed}
use goji.Web.MiddlewareStack.Steps.{new_mstack, step, start, uses}
use goji.Web.Mux.Serving.{serve_mux-in_order}
use goji.Web.Mux.Dispatch.{naive, dispatch-in_order, router_middleware-once}

abbrev static : StringPattern
static = record {
  raw = codes "/a";
  pats = [];
  breaks = [];
  literals = codes "/a" ∷ [];
  wildcard = false;
}

abbrev calls : List (Call Handler)
calls =
    handles (as_pattern static) m_all (custom 1) ∷ handles (as_pattern static) m_get (custom 2) ∷ []

-- The response is the list of the handlers that wrote to it.
abbrev answer : Handler → Context Handler → Request → List Handler → List Handler
answer h c r w = h ∷ w

abbrev not_found : Handler
not_found = custom 404

abbrev request : Request
request = record { method = codes "GET"; path = codes "/a" }

abbrev context : Context Handler
context = record { url_params = none; env = none }

calls_lawful : All LawfulRoute (added calls)
unfolding added
calls_lawful = (
  (as_pattern-KeepsPrefix Handler static, refl),
  ((as_pattern-KeepsPrefix Handler static, refl), tt),
)

context_free : (get_match context).handler ≡ none
unfolding get_match
context_free = refl

dispatch-in_order_example :
    (h : Handler) × ((naive not_found calls request context).0.handler ≡ some h)
    × (dispatch answer request (context, (serve (new_router not_found) calls, some [])) ≡ (
      (naive not_found calls request context).1,
      (
        (get_match_for (serve (new_router not_found) calls) request context).1,
        some (answer h (naive not_found calls request context).1 request []),
      ),
    ))
dispatch-in_order_example =
    dispatch-in_order answer not_found calls request context [] calls_lawful context_free

router_middleware-once_example :
    let c' = some_env context in
    let found = naive not_found calls request c' in
    let c'' = set_env match_key (match_value found.0) found.1 in
    (h : Handler) × (found.0.handler ≡ some h)
    × (get_match c'' ≡ found.0)
    × (router_middleware answer
          (dispatch answer)
          request
          (context, (serve (new_router not_found) calls, some []))
        ≡ (
          c'',
          (
            (get_match_for (serve (new_router not_found) calls) request c').1,
            some (answer h c'' request []),
          ),
        ))
router_middleware-once_example =
    router_middleware-once answer not_found calls request context [] calls_lawful

-- A layer that writes to the response and passes the request on.
abbrev noting :
    HttpHandler Handler (Served (List Handler)) → HttpHandler Handler (Served (List Handler))
noting h r (c, (rt, none)) = h r (c, (rt, none))
noting h r (c, (rt, some w)) = h r (c, (rt, some (custom 7 ∷ w)))

abbrev noted : MStack Handler (Served (List Handler))
noted = record {
  stack = record { fn = noting; orig = 5 } ∷ [];
  pool = record { address = 1; spare = [] };
  router = dispatch answer;
  pools_made = 2;
}

used : use_middleware (contextual 5 noting) (new_mstack (dispatch answer)) ≡ changed noted
unfolding use_middleware
used = refl

serve_mux-in_order_example :
    (h : Handler) × (((naive not_found calls request context).0.handler ≡ some h)
      × ((serve_mux answer 0
            (record { ms = noted; rt = serve (new_router not_found) calls })
            context
            request
            []).0
          ≡ some (answer h (naive not_found calls request context).1 request (custom 7 ∷ []))))
serve_mux-in_order_example =
    serve_mux-in_order answer (record { ms = noted; rt = serve (new_router not_found) calls }) []
      (λ l r x. (x.0, custom 7 ∷ x.1)) not_found calls 0 context request []
      (step _ _ _ _ start (uses (contextual 5 noting) noted used)) ((λ h r c rt w. refl), tt) refl
      calls_lawful context_free
