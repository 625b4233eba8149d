-- ===== src/Web/Mux.antt =====
-- web/mux.go, web/handler.go and web/pattern.go: the mux over its router and its middleware stack.
-- A handler is user code: `respond` says what it makes of the context, the request and the response.
pub mod Dispatch
pub mod Verbs
pub mod Serving
pub mod Raw
mod Tests
use Prim.Native.Nat.{bit_or}
use goji.Prelude.{ℕ, Bool, true, false, Option, none, some, List, [], ◌∷◌}
use goji.Prelude.Bytes.{Bytes}
use goji.Web.Method.{
  Method, m_connect, m_delete, m_get, m_head, m_options, m_patch, m_post, m_put, m_trace, m_all,
}
use goji.Web.Route.{Request, Pattern}
use goji.Web.Context.{Context, Match, match_value, match_key, get_match, set_env}
use goji.Web.StringPattern.{as_pattern, parse_string_pattern}
use goji.Web.MiddlewareStack.{
  HttpHandler, MStack, CStack, alloc, release, serve_http_c, empty_context,
}
use goji.Web.MiddlewareStack.Steps.{new_mstack}
use goji.Web.Router.{Router, Outcome, finished, faulted, handle, get_match_for}
use goji.Web.Router.Naive.{new_router}

-- The values that the verb methods take as handlers, each known by a number.
pub data HandlerType : Type 0 where
  context_func : ℕ → HandlerType
  http_func : ℕ → HandlerType
  web_handler : ℕ → HandlerType
  http_handler : ℕ → HandlerType
  unknown_handler : ℕ → HandlerType

-- `Handler`: the three wrappers, and any other implementation.
pub data Handler : Type 0 where
  handler_func_wrap : ℕ → Handler
  net_http_handler_func_wrap : ℕ → Handler
  custom : ℕ → Handler
  net_http_handler_wrap : ℕ → Handler

-- `parseHandler`; on a value of another type the program ends.
abbrev pub parse_handler : HandlerType → Option Handler
parse_handler (context_func f) = some (handler_func_wrap f)
parse_handler (http_func f) = some (net_http_handler_func_wrap f)
parse_handler (web_handler f) = some (custom f)
parse_handler (http_handler f) = some (net_http_handler_wrap f)
parse_handler (unknown_handler f) = none

-- The values that they take as patterns.
pub data PatternValue : Type 0 where
  pattern_value : Pattern (Context Handler) → PatternValue
  regexp_value : ℕ → PatternValue
  string_value : Bytes → PatternValue
  unknown_value : ℕ → PatternValue

-- The verb methods of `Mux`.
pub data Verb : Type 0 where
  any : Verb
  connect : Verb
  delete : Verb
  get : Verb
  head : Verb
  options : Verb
  patch : Verb
  post : Verb
  put : Verb
  trace : Verb

abbrev pub methods_of : Verb → Method
methods_of any = m_all
methods_of connect = m_connect
methods_of delete = m_delete
methods_of get = bit_or m_get m_head
methods_of head = m_head
methods_of options = m_options
methods_of patch = m_patch
methods_of post = m_post
methods_of put = m_put
methods_of trace = m_trace

-- The response with the router, or no response after a fault.
abbrev pub Served : Type 0 → Type 0
Served W = Router (Context Handler) Handler × Option W

pub record Mux (W : Type 0) : Type 0 where
  pub ms : MStack Handler (Served W)
  pub rt : Router (Context Handler) Handler

module _ (regexp_pattern : ℕ → Pattern (Context Handler)) where
  -- `ParsePattern`, where `regexp_pattern` parses a regular expression.
  abbrev pub parse_pattern : PatternValue → Option (Pattern (Context Handler))
  parse_pattern (pattern_value p) = some p
  parse_pattern (regexp_value n) = some (regexp_pattern n)
  parse_pattern (string_value s) = some (as_pattern (parse_string_pattern s))
  parse_pattern (unknown_value n) = none

  handle_parsed :
      Option (Pattern (Context Handler))
      → Method
      → Option Handler
      → Router (Context Handler) Handler
      → Option (Router (Context Handler) Handler)
  handle_parsed none m h rt = none
  handle_parsed (some p) m none rt = none
  handle_parsed (some p) m (some h) rt = some (handle rt p m h)

  -- `router.handleUntyped`
  unfoldable pub handle_untyped :
      PatternValue
      → Method
      → HandlerType
      → Router (Context Handler) Handler
      → Option (Router (Context Handler) Handler)
  unfolding handle_parsed
  handle_untyped p m h rt = handle_parsed (parse_pattern p) m (parse_handler h) rt

  with_router : {W : Type 0} → Mux W → Option (Router (Context Handler) Handler) → Option (Mux W)
  with_router mux none = none
  with_router mux (some rt) = some (record mux { rt = rt })

  -- A verb method of the mux.
  unfoldable pub add_route :
      {W : Type 0} → Verb → PatternValue → HandlerType → Mux W → Option (Mux W)
  unfolding handle_untyped with_router
  add_route v p h mux = with_router mux (handle_untyped p (methods_of v) h mux.rt)

-- `rm.c.Env`, made where it is nil.
abbrev pub some_env : Context Handler → Context Handler
some_env c = record c { env = elim c.env [ none ↦ some [] | some e ↦ some e ] }

module _ {W : Type 0} (respond : Handler → Context Handler → Request → W → W) where
  -- `match.Handler.ServeHTTPC(*c, w, r)`; a nil handler is a fault.
  abbrev pub call_handler :
      Option Handler
      → Context Handler
      → Request
      → Router (Context Handler) Handler
      → W
      → Context Handler × Served W
  call_handler none c r rt w = (c, (rt, none))
  call_handler (some h) c r rt w = (c, (rt, some (respond h c r w)))

  abbrev pub after_match :
      Outcome (Match Handler × Context Handler) × Router (Context Handler) Handler
      → Context Handler
      → Request
      → W
      → Context Handler × Served W
  after_match (finished (m, c'), rt) c r w = call_handler m.handler c' r rt w
  after_match (faulted, rt) c r w = (c, (rt, none))

  abbrev pub routed :
      Option Handler
      → Router (Context Handler) Handler
      → Request
      → Context Handler
      → W
      → Context Handler × Served W
  routed (some h) rt r c w = call_handler (some h) c r rt w
  routed none rt r c w = after_match (get_match_for rt r c) c r w

  -- `router.route`
  unfoldable pub dispatch : HttpHandler Handler (Served W)
  dispatch r (c, (rt, none)) = (c, (rt, none))
  dispatch r (c, (rt, some w)) = routed (get_match c).handler rt r c w

  abbrev pub store_match :
      HttpHandler Handler (Served W)
      → Outcome (Match Handler × Context Handler) × Router (Context Handler) Handler
      → Context Handler
      → Request
      → W
      → Context Handler × Served W
  store_match h (finished (m, c'), rt) c r w =
      h r (set_env match_key (match_value m) c', (rt, some w))
  store_match h (faulted, rt) c r w = (c, (rt, none))

  -- `routerMiddleware.ServeHTTP`
  unfoldable pub router_middleware : HttpHandler Handler (Served W) → HttpHandler Handler (Served W)
  router_middleware h r (c, (rt, none)) = (c, (rt, none))
  router_middleware h r (c, (rt, some w)) =
      store_match h (get_match_for rt r (some_env c)) (some_env c) r w

  -- `New`; `not_found` wraps `http.NotFound`.
  abbrev pub new_mux : Handler → Mux W
  new_mux not_found = record { ms = new_mstack dispatch; rt = new_router not_found }

  -- `Mux.ServeHTTPC`, with the spare stack that the pool gives by its position; the response, and
  -- the mux afterwards.
  unfoldable pub serve_mux : ℕ → Mux W → Context Handler → Request → W → Option W × Mux W
  unfolding alloc release
  serve_mux n mux c r w =
      let (cs, ms') = alloc n mux.ms in
      let (c', (rt', w')) = serve_http_c cs c r (mux.rt, some w) in
      (w', record { ms = release (record cs { context = c' }) ms'; rt = rt' })

-- `Mux.NotFound`
unfoldable pub set_not_found : {W : Type 0} → HandlerType → Mux W → Option (Mux W)
set_not_found h mux = elim (parse_handler h) [
  | none ↦ none
  | some f ↦ some (record mux { rt = record mux.rt { not_found = f } })
]
