-- ===== src/Web/Mux/Serving.antt =====
-- web/mux.go: the methods of the mux that pass a call on, and ServeHTTPC from the pool through the
-- layers to the router.
use goji.Prelude.{◌≡◌, refl, ap, ◌∙◌, ℕ, Option, none, some, List, [], ◌∷◌, All}
use goji.Web.Route.{Request}
use goji.Web.Context.{Context, get_match}
use goji.Web.MiddlewareStack.{
  HttpHandler, MiddlewareType, Layer, CStack, Changed, changed, unknown_middleware, fatal, build,
  use_middleware, insert_middleware, abandon_middleware, empty_context,
}
use goji.Web.MiddlewareStack.Steps.{Steps, new_mstack}
use goji.Web.MiddlewareStack.Pooling.{alloc-current}
use goji.Web.Router.{Router}
use goji.Web.Router.Naive.{new_router, LawfulRoute}
use goji.Web.Router.History.{Call, serve, added}
use goji.Web.Mux.{Handler, Mux, Served, dispatch, serve_mux}
use goji.Web.Mux.Dispatch.{naive, dispatch-in_order}

module _ {W : Type 0} where
  -- What a change of the stack makes of the mux; the error comes with it.
  abbrev pub stack_of :
      Mux W → Changed Handler (Served W) → Changed Handler (Served W) × Option (Mux W)
  stack_of mux (changed ms) = (changed ms, some (record mux { ms = ms }))
  stack_of mux (unknown_middleware ms) = (unknown_middleware ms, some (record mux { ms = ms }))
  stack_of mux fatal = (fatal, none)

  -- `Mux.Use`
  abbrev pub use_mux :
      MiddlewareType Handler (Served W) → Mux W → Changed Handler (Served W) × Option (Mux W)
  use_mux mw mux = stack_of mux (use_middleware mw mux.ms)

  -- `Mux.Insert`
  abbrev pub insert_mux :
      MiddlewareType Handler (Served W)
      → MiddlewareType Handler (Served W)
      → Mux W
      → Changed Handler (Served W) × Option (Mux W)
  insert_mux mw before mux = stack_of mux (insert_middleware mw before mux.ms)

  -- `Mux.Abandon`
  abbrev pub abandon_mux :
      MiddlewareType Handler (Served W) → Mux W → Changed Handler (Served W) × Option (Mux W)
  abandon_mux mw mux = stack_of mux (abandon_middleware mw mux.ms)

module _ {W : Type 0} (respond : Handler → Context Handler → Request → W → W) where
  -- `Mux.ServeHTTP`
  abbrev pub serve_http_mux : ℕ → Mux W → Request → W → Option W × Mux W
  serve_http_mux n mux r w = serve_mux respond n mux empty_context r w

  -- The response of the present layers around the router.
  serve_mux-current :
      (mux : Mux W) (out : List (CStack Handler (Served W))) (n : ℕ) (c : Context Handler)
      (r : Request) (w : W)
      → Steps (new_mstack (dispatch respond)) [] mux.ms out
      → (serve_mux respond n mux c r w).0
        ≡ (build (dispatch respond) mux.ms.stack r (c, (mux.rt, some w))).1.1
  unfolding serve_mux
  serve_mux-current mux out n c r w steps =
      ap (λ h. (h r (c, (mux.rt, some w))).1.1)
        (alloc-current (dispatch respond) mux.ms out n steps)

  -- What a layer does before it calls the next.
  abbrev pub Before : Type 0
  Before = Layer Handler (Served W) → Request → Context Handler × W → Context Handler × W

  abbrev pub PassesOn : Before → Layer Handler (Served W) → Type 0
  PassesOn before l =
      (h : HttpHandler Handler (Served W)) (r : Request) (c : Context Handler)
      (rt : Router (Context Handler) Handler) (w : W)
      → l.fn h r (c, (rt, some w)) ≡ h r ((before l r (c, w)).0, (rt, some (before l r (c, w)).1))

  -- What all layers do, the first one first.
  abbrev pub through :
      Before → List (Layer Handler (Served W)) → Request → Context Handler × W → Context Handler × W
  through before [] r x = x
  through before (l ∷ ls) r x = through before ls r (before l r x)

  build-through :
      (before : Before) (h : HttpHandler Handler (Served W)) (ls : List (Layer Handler (Served W)))
      (r : Request) (rt : Router (Context Handler) Handler) (x : Context Handler × W)
      → All (PassesOn before) ls
      → build h ls r (x.0, (rt, some x.1))
        ≡ h r ((through before ls r x).0, (rt, some (through before ls r x).1))
  unfolding build
  build-through before h [] r rt x p = refl
  build-through before h (l ∷ ls) r rt x p =
      p.0 (build h ls) r x.0 rt x.1 ∙ build-through before h ls r rt (before l r x) p.1

  -- After any steps of Use, Insert, Abandon and requests in flight on the stack of a mux, for
  -- layers that each change the context and the response in their own way and then pass the
  -- request on, a router after any history with patterns that keep to their prefix, and a context
  -- that comes without a stored match out of the layers: whichever spare instance the pool gives,
  -- ServeHTTPC answers as the first matching route in the order of the additions does, or else
  -- the fallback, with the context and the response that the layers, the first one first, and the
  -- search leave.
  pub serve_mux-in_order :
      (mux : Mux W) (out : List (CStack Handler (Served W))) (before : Before) (nf : Handler)
      (cs : List (Call Handler)) (n : ℕ) (c : Context Handler) (r : Request) (w : W)
      → Steps (new_mstack (dispatch respond)) [] mux.ms out
      → All (PassesOn before) mux.ms.stack
      → mux.rt ≡ serve (new_router nf) cs
      → All LawfulRoute (added cs)
      → let (c', w') = through before mux.ms.stack r (c, w) in
        (get_match c').handler ≡ none
        → (h : Handler) × (((naive nf cs r c').0.handler ≡ some h)
            × ((serve_mux respond n mux c r w).0 ≡ some (respond h (naive nf cs r c').1 r w')))
  serve_mux-in_order mux out before nf cs n c r w steps passes routes lawful fresh =
      let x = through before mux.ms.stack r (c, w) in
      let (h, e, answer) = dispatch-in_order respond nf cs r x.0 x.1 lawful fresh in
      (
        h,
        (
          e,
          serve_mux-current mux out n c r w steps
              ∙ ap (λ t. t.1.1)
                  (build-through before (dispatch respond) mux.ms.stack r mux.rt (c, w) passes)
              ∙ ap (λ rt. (dispatch respond r (x.0, (rt, some x.1))).1.1) routes
              ∙ ap (λ t. t.1.1) answer,
        ),
      )
