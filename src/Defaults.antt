-- ===== src/Defaults.antt =====
-- default.go and serve.go: the mux that the package keeps, and the order in which `ServeListener`
-- starts a server. What is written to the log is left out. The server of `net/http` is a parameter,
-- as in Graceful/Server.
use goji.Prelude.{ℕ, ◌≡◌, refl, Bool, true, false, Option, none, some, List, [], ◌∷◌}
use goji.Prelude.Int.{pos}
use goji.Web.Route.{Pattern}
use goji.Web.Context.{Context}
use goji.Web.MiddlewareStack.{
  HttpHandler, MiddlewareType, MStack, Changed, changed, unknown_middleware, fatal, use_middleware,
  use_layer, build, contextual, invalidate,
}
use goji.Web.MiddlewareStack.Steps.{new_mstack}
use goji.Web.Mux.{Handler, HandlerType, PatternValue, Verb, Served, Mux, add_route, set_not_found}
use goji.Web.Mux.Serving.{use_mux, insert_mux, abandon_mux}
use goji.Web.Router.{compile_router}
use goji.Graceful.Signal.Loop.{
  Config, AcceptError, double_kick_window, handle_signals, pre_hook, post_hook, append_listener,
  peaceful_error, err_closing, op_error,
}
use goji.Graceful.Server.{serve}
use goji.Prelude.Bytes.{codes}

module _ {H S : Type 0} where
  use_next : (MStack H S → Changed H S) → Changed H S → Changed H S
  use_next f (changed ms) = f ms
  use_next f (unknown_middleware ms) = unknown_middleware ms
  use_next f fatal = fatal

  -- `init` of default.go, after `web.New`: the calls of `Use` on the middleware functions of the
  -- package middleware.
  unfoldable use_all : List (MiddlewareType H S) → MStack H S → Changed H S
  unfolding use_next
  use_all [] ms = changed ms
  use_all (mw ∷ mws) ms = use_next (use_all mws) (use_middleware mw ms)

  unfoldable pub default_stack :
      (request_id logger recoverer automatic_options : MiddlewareType H S)
      → HttpHandler H S
      → Changed H S
  unfolding use_all
  default_stack request_id logger recoverer automatic_options router =
      use_all (request_id ∷ logger ∷ recoverer ∷ automatic_options ∷ []) (new_mstack router)

  pub built : Changed H S → Option (HttpHandler H S)
  built (changed ms) = some (build ms.router ms.stack)
  built (unknown_middleware ms) = none
  built fatal = none

  -- The handler of the default mux is the router inside of the options, the recoverer, the logger and
  -- the request identifier, from the inside out, whichever functions these are.
  pub default_stack-nests :
      (f g h k : HttpHandler H S → HttpHandler H S) (a b c d : ℕ) (router : HttpHandler H S)
      → built
          (default_stack (contextual a f) (contextual b g) (contextual c h) (contextual d k) router)
        ≡ some (f (g (h (k router))))
  unfolding default_stack use_all use_middleware invalidate built use_next build use_layer
  default_stack-nests f g h k a b c d router = refl

-- `init` of serve.go
abbrev pub serve_init : Config → Config
serve_init c = double_kick_window (pos 2000000000) c

-- What `ServeListener` changes: the mux, whether "/" of the mux of `net/http` is taken, what is
-- registered for a shutdown, and whether `bind.Ready` was called.
pub record Program (W : Type 0) : Type 0 where
  pub mux : Mux W
  pub root_taken : Bool
  pub config : Config
  pub ready : Bool

-- How `ServeListener` goes on: `graceful.Wait` with the state, `log.Fatal` with the error, or a panic
-- of `http.Handle`.
pub data Ending (W : Type 0) : Type 0 where
  waits : Program W → Ending W
  log_fatal : AcceptError → Program W → Ending W
  panics : Program W → Ending W

-- The functions of default.go.
pub data DefaultCall (W : Type 0) : Type 0 where
  use_default : MiddlewareType Handler (Served W) → DefaultCall W
  insert_default : (mw before : MiddlewareType Handler (Served W)) → DefaultCall W
  abandon_default : MiddlewareType Handler (Served W) → DefaultCall W
  verb_default : Verb → PatternValue → HandlerType → DefaultCall W
  not_found_default : HandlerType → DefaultCall W

-- Each passes its arguments on to the mux that the package keeps; where that ends the program, there
-- is no mux.
abbrev pub call_default :
    {W : Type 0} → (ℕ → Pattern (Context Handler)) → DefaultCall W → Mux W → Option (Mux W)
call_default regexp_pattern (use_default mw) mux = (use_mux mw mux).1
call_default regexp_pattern (insert_default mw before) mux = (insert_mux mw before mux).1
call_default regexp_pattern (abandon_default mw) mux = (abandon_mux mw mux).1
call_default regexp_pattern (verb_default v p h) mux = add_route regexp_pattern v p h mux
call_default regexp_pattern (not_found_default h) mux = set_not_found h mux

module _ {W : Type 0} where
  -- `DefaultMux.Compile()`
  unfoldable pub compiled : Program W → Program W
  compiled p = record p { mux = record p.mux { rt = (compile_router p.mux.rt).1 } }

  -- From `graceful.HandleSignals` to `graceful.PostHook`; the two hooks write to the log.
  unfoldable registered : (before after : ℕ) → Program W → Program W
  registered before after p = record p {
    root_taken = true;
    config = post_hook after (pre_hook before (handle_signals p.config));
    ready = true;
  }

  unfoldable after_serve : Option AcceptError × Config → Program W → Ending W
  after_serve (none, c) p = waits (record p { config = c })
  after_serve (some err, c) p = log_fatal err (record p { config = c })

  start : Bool → ℕ → ℕ → ℕ → Bool × Option AcceptError → Program W → Ending W
  unfolding registered after_serve
  start true before after wrap ended p = panics p
  start false before after wrap ended p =
      let p' = registered before after p in after_serve (serve wrap ended p'.config) p'

  -- `ServeListener`, where `serve` of the server ends with an error, and with the listeners closed or
  -- not.
  unfoldable pub serve_listener :
      (before after : ℕ) → ℕ → Bool × Option AcceptError → Program W → Ending W
  unfolding compiled start
  serve_listener before after wrap ended p = start p.root_taken before after wrap ended (compiled p)

  -- After a run that took "/" or met it taken, it is taken.
  unfoldable pub reached : Ending W → Program W
  reached (waits p) = p
  reached (log_fatal err p) = p
  reached (panics p) = p

  after_serve-root_taken :
      (err : Option AcceptError) (c : Config) (p : Program W)
      → p.root_taken ≡ true
      → (reached (after_serve (err, c) p)).root_taken ≡ true
  unfolding after_serve reached
  after_serve-root_taken none c p h = h
  after_serve-root_taken (some e) c p h = h

  start-root_taken :
      (taken : Bool) (before after wrap : ℕ) (closing : Bool) (err : Option AcceptError)
      (p : Program W)
      → p.root_taken ≡ taken
      → (reached (start taken before after wrap (closing, err) p)).root_taken ≡ true
  unfolding start registered after_serve reached
  start-root_taken true before after wrap closing err p h = h
  start-root_taken false before after wrap closing err p h =
      after_serve-root_taken (peaceful_error closing err) _ (registered before after p) refl

  -- A second call of `ServeListener` panics where it registers "/", and has then done no more than
  -- compile the mux.
  pub serve_listener-twice :
      (before after wrap : ℕ) (closing : Bool) (err : Option AcceptError) (p : Program W)
      → let p' = reached (serve_listener before after wrap (closing, err) p) in
        serve_listener before after wrap (closing, err) p' ≡ panics (compiled p')
  unfolding serve_listener compiled start
  serve_listener-twice before after wrap closing err p =
      let met = start-root_taken p.root_taken before after wrap closing err (compiled p) refl in
      rw met refl

  -- A server whose listeners the shutdown closed goes on to `graceful.Wait`, with the listener
  -- and the hooks registered.
  pub serve_listener-closed :
      (before after wrap : ℕ) (p : Program W)
      → p.root_taken ≡ false
      → let hooked = post_hook after (pre_hook before (handle_signals p.config)) in
        serve_listener before after wrap (true, some (op_error (codes "accept") err_closing)) p
        ≡ waits (record (compiled p) {
          root_taken = true;
          config = append_listener wrap hooked;
          ready = true;
        })
  unfolding serve_listener compiled start registered after_serve
  serve_listener-closed before after wrap p h = rw h refl
