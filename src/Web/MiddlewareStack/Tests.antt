-- ===== src/Web/MiddlewareStack/Tests.antt =====
-- web/middleware.go: a stack of two layers.
use goji.Prelude.{ℕ, ◌≡◌, refl, [], ◌∷◌}
use goji.Web.MiddlewareStack.{
  HttpHandler, plain, contextual, Layer, MStack, changed, invalidate, build, use_middleware,
  insert_middleware, abandon_middleware, alloc,
}
use goji.Web.MiddlewareStack.Layers.{insert_middleware-first, abandon_middleware-first}
use goji.Web.MiddlewareStack.Steps.{start, step, uses, allocates, new_mstack}
use goji.Web.MiddlewareStack.Pooling.{alloc-current}

-- The state is the list of the numbers of the layers that a request passed.
abbrev routing : HttpHandler ℕ ℕ
routing = λ r p. p

abbrev passing : ℕ → HttpHandler ℕ ℕ → HttpHandler ℕ ℕ
passing n = λ h r p. h r (p.0, n)

abbrev layer : ℕ → Layer ℕ ℕ
layer n = record { fn = passing n; orig = n }

abbrev two_layers : MStack ℕ ℕ
two_layers = record {
  stack = layer 1 ∷ layer 2 ∷ [];
  pool = record { address = 4; spare = [] };
  router = routing;
  pools_made = 5;
}

insert_middleware-first_example :
    insert_middleware (plain 3 (passing 3)) (contextual 2 (passing 2)) two_layers
    ≡ changed (invalidate (record two_layers { stack = layer 1 ∷ layer 3 ∷ layer 2 ∷ [] }))
insert_middleware-first_example =
    insert_middleware-first (plain 3 (passing 3)) (contextual 2 (passing 2)) (layer 3) two_layers
      (layer 1 ∷ []) (layer 2) [] refl refl (refl, tt) refl

abandon_middleware-first_example :
    abandon_middleware (plain 1 (passing 1)) two_layers
    ≡ changed (invalidate (record two_layers { stack = layer 2 ∷ [] }))
abandon_middleware-first_example =
    abandon_middleware-first (plain 1 (passing 1)) two_layers [] (layer 1) (layer 2 ∷ []) refl tt
      refl

abbrev one_layer : MStack ℕ ℕ
one_layer = record {
  stack = layer 6 ∷ [];
  pool = record { address = 1; spare = [] };
  router = routing;
  pools_made = 2;
}

used : use_middleware (plain 6 (passing 6)) (new_mstack routing) ≡ changed one_layer
unfolding use_middleware
used = refl

used_later :
    use_middleware (plain 6 (passing 6)) (alloc 0 (new_mstack routing)).1 ≡ changed one_layer
unfolding use_middleware alloc
used_later = refl

alloc-current_example : (alloc 0 one_layer).0.m ≡ build routing (layer 6 ∷ [])
alloc-current_example = alloc-current routing one_layer ((alloc 0 (new_mstack routing)).0 ∷ []) 0 (
    step (alloc 0 (new_mstack routing)).1 ((alloc 0 (new_mstack routing)).0 ∷ []) one_layer
      ((alloc 0 (new_mstack routing)).0 ∷ [])
      (step (new_mstack routing) [] (alloc 0 (new_mstack routing)).1
        ((alloc 0 (new_mstack routing)).0 ∷ []) start
        (allocates 0 (alloc 0 (new_mstack routing)).0 (alloc 0 (new_mstack routing)).1 refl))
      (uses (plain 6 (passing 6)) one_layer used_later))
