-- ===== src/Web/MiddlewareStack/Steps.antt =====
-- web/middleware.go: steps of a stack with requests in flight, and the invariant of its pool.
use goji.Prelude.{
  ℕ, ◌<◌, ◌≡◌, refl, sym, ap, subst, true, false, Option, none, some, List, [], ◌∷◌, ◌++◌, arith,
  All,
}
use goji.Web.Context.{Context}
use goji.Web.MiddlewareStack.{
  HttpHandler, MiddlewareType, Layer, CStack, MStack, Changed, changed, invalidate, build, alloc,
  is_pool, release, use_layer, use_middleware, insert_layer, insert_middleware, abandon_layer,
  abandon_middleware,
}

-- One step of a stack and the instances in flight: a change of the layers, the start of a request
-- by `alloc`, or its end by `release`, by which time the context may have changed.
pub data Step {H S : Type 0} (ms : MStack H S) (out : List (CStack H S))
    : MStack H S → List (CStack H S) → Type 0 where
  uses :
      (mw : MiddlewareType H S) (ms' : MStack H S)
      → use_middleware mw ms ≡ changed ms'
      → Step ms out ms' out
  inserts :
      (mw before : MiddlewareType H S) (ms' : MStack H S)
      → insert_middleware mw before ms ≡ changed ms'
      → Step ms out ms' out
  abandons :
      (mw : MiddlewareType H S) (ms' : MStack H S)
      → abandon_middleware mw ms ≡ changed ms'
      → Step ms out ms' out
  allocates :
      (n : ℕ) (c : CStack H S) (ms' : MStack H S)
      → alloc n ms ≡ (c, ms')
      → Step ms out ms' (c ∷ out)
  releases :
      (front : List (CStack H S)) (c : CStack H S) (back out' : List (CStack H S)) (x : Context H)
      (ms' : MStack H S)
      → out ≡ front ++ c ∷ back
      → out' ≡ front ++ back
      → ms' ≡ release (record c { context = x }) ms
      → Step ms out ms' out'

pub data Steps {H S : Type 0} (ms : MStack H S) (out : List (CStack H S))
    : MStack H S → List (CStack H S) → Type 0 where
  start : Steps ms out ms out
  step :
      (ms' : MStack H S) (out' : List (CStack H S)) (ms'' : MStack H S) (out'' : List (CStack H S))
      → Steps ms out ms' out'
      → Step ms' out' ms'' out''
      → Steps ms out ms'' out''

-- A pool that is made already is not one made later.
pub is_pool-above : (o : Option ℕ) (n : ℕ) → ((p : ℕ) → o ≡ some p → p < n) → is_pool o n ≡ false
is_pool-above none n h = refl
is_pool-above (some p) n h = ground (arith, h p refl)

abbrev pub or_else : {A : Type 0} → A → Option A → A
or_else a none = a
or_else a (some b) = b

abbrev pub ms_of : {H S : Type 0} → MStack H S → Changed H S → MStack H S
ms_of d (changed ms) = ms
ms_of d _ = d

module _ {H S : Type 0} where
  -- The mux's stack at the start.
  abbrev pub new_mstack : HttpHandler H S → MStack H S
  new_mstack router = record {
    stack = [];
    pool = record { address = 0; spare = [] };
    router = router;
    pools_made = 1;
  }

  -- Built from the layers of now.
  abbrev pub IsCurrent : MStack H S → CStack H S → Type 0
  IsCurrent ms c = c.m ≡ build ms.router ms.stack

  -- From a pool that exists, and current if it is from the pool of now.
  abbrev pub IsTraced : MStack H S → CStack H S → Type 0
  IsTraced ms c =
      ((p : ℕ) → c.pool ≡ some p → p < ms.pools_made)
      × (is_pool c.pool ms.pool.address ≡ true → IsCurrent ms c)

  pub record IsSound (router : HttpHandler H S) (ms : MStack H S) (out : List (CStack H S))
      : Type 0 where
    pub routed : ms.router ≡ router
    pub made : ms.pool.address < ms.pools_made
    pub spare_current : All (IsCurrent ms) ms.pool.spare
    pub out_traced : All (IsTraced ms) out

  pub IsTraced-invalidate :
      (ms : MStack H S) (s : List (Layer H S)) (out : List (CStack H S))
      → All (IsTraced ms) out
      → All (IsTraced (invalidate (record ms { stack = s }))) out
  unfolding invalidate
  IsTraced-invalidate ms s [] h = tt
  IsTraced-invalidate ms s (c ∷ out) ((below, cur), hs) = (
    (λ p e. omega (arith, below p e), λ same. cc (is_pool-above c.pool ms.pools_made below)),
    IsTraced-invalidate ms s out hs,
  )

  pub IsSound-invalidate :
      (router : HttpHandler H S) (ms : MStack H S) (s : List (Layer H S)) (out : List (CStack H S))
      → IsSound router ms out
      → IsSound router (invalidate (record ms { stack = s })) out
  unfolding invalidate
  IsSound-invalidate router ms s out h = record {
    routed = h.routed;
    made = omega arith;
    spare_current = tt;
    out_traced = IsTraced-invalidate ms s out h.out_traced;
  }

  -- Every change of the layers makes a new pool.
  abbrev pub Renewed : MStack H S → MStack H S → Type 0
  Renewed ms ms' = (s : List (Layer H S)) × (ms' ≡ invalidate (record ms { stack = s }))

  pub IsSound-Renewed :
      (router : HttpHandler H S) (ms ms' : MStack H S) (out : List (CStack H S))
      → Renewed ms ms'
      → IsSound router ms out
      → IsSound router ms' out
  IsSound-Renewed router ms ms' out (s, e) h =
      subst (λ m. IsSound router m out) (sym e) (IsSound-invalidate router ms s out h)

  pub use-Renewed :
      (o : Option (Layer H S)) (ms ms' : MStack H S) → use_layer o ms ≡ changed ms' → Renewed ms ms'
  unfolding use_layer
  use-Renewed none ms ms' e = cc
  use-Renewed (some l) ms ms' e = (_, sym (ap (ms_of ms) e))

  pub insert-Renewed :
      (i : Option ℕ) (o : Option (Layer H S)) (ms ms' : MStack H S)
      → insert_layer i o ms ≡ changed ms'
      → Renewed ms ms'
  unfolding insert_layer
  insert-Renewed none o ms ms' e = cc
  insert-Renewed (some i) none ms ms' e = cc
  insert-Renewed (some i) (some l) ms ms' e = (_, sym (ap (ms_of ms) e))

  pub abandon-Renewed :
      (i : Option ℕ) (ms ms' : MStack H S) → abandon_layer i ms ≡ changed ms' → Renewed ms ms'
  unfolding abandon_layer
  abandon-Renewed none ms ms' e = cc
  abandon-Renewed (some i) ms ms' e = (_, sym (ap (ms_of ms) e))
