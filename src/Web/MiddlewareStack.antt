-- ===== src/Web/MiddlewareStack.antt =====
-- web/middleware.go: the middleware stack and its cached instances. The lock is left out: each call
-- of `Use`, `Insert` and `Abandon` is one step. web/func_equal.go is the equality of two numbers, by
-- which functions are known.
pub mod Layers
pub mod Steps
pub mod Pooling
pub mod ChanPool
mod Tests
use goji.Prelude.{
  ℕ, zero, suc, ◌+◌, ◌-◌, Bool, true, false, not, Option, none, some, List, [], ◌∷◌, ◌++◌, length,
  take, drop, get_elem?, ◌==◌, if◌then◌else◌,
}
use goji.Web.Route.{Request}
use goji.Web.Context.{Context}

module _ (H S : Type 0) where
  -- `http.Handler` inside of a stack: it changes the context that the stack points to, and the
  -- response and all other state, `S`.
  abbrev pub HttpHandler : Type 0
  HttpHandler = Request → Context H × S → Context H × S

  -- What `Use` accepts: the two kinds of functions, and any other value.
  pub data MiddlewareType : Type 0 where
    plain : ℕ → (HttpHandler → HttpHandler) → MiddlewareType
    contextual : ℕ → (HttpHandler → HttpHandler) → MiddlewareType
    unknown : ℕ → MiddlewareType

  -- `mLayer`; `orig` is known by its number.
  pub record Layer : Type 0 where
    pub fn : HttpHandler → HttpHandler
    pub orig : ℕ

  -- `cStack`: the context, the handler and the pool that it is from, by the pool's pointer.
  pub record CStack : Type 0 where
    pub context : Context H
    pub m : HttpHandler
    pub pool : Option ℕ

  -- `cPool` at its address.
  pub record Pool : Type 0 where
    pub address : ℕ
    pub spare : List CStack

  -- `mStack`; `pools_made` numbers the pools.
  pub record MStack : Type 0 where
    pub stack : List Layer
    pub pool : Pool
    pub router : HttpHandler
    pub pools_made : ℕ

  -- What `Insert` and `Abandon` return: nil, an error for an unknown middleware, or no return at all
  -- where the program ends.
  pub data Changed : Type 0 where
    changed : MStack → Changed
    unknown_middleware : MStack → Changed
    fatal : Changed

abbrev pub next_index : Option ℕ → Option ℕ
next_index none = none
next_index (some i) = some (suc i)

-- `cs.pool != m.pool`, negated.
abbrev pub is_pool : Option ℕ → ℕ → Bool
is_pool none n = false
is_pool (some p) n = p == n

-- `C{}`
abbrev pub empty_context : {H : Type 0} → Context H
empty_context = record { url_params = none; env = none }

module _ {A : Type 0} where
  -- `copy(s[i:], src)`
  abbrev pub copy_from : ℕ → List A → List A → List A
  copy_from i src s = take i s ++ (take (length s - i) src ++ drop (i + length src) s)

  -- `s[i] = a`
  abbrev pub set_elem : ℕ → A → List A → List A
  set_elem i a [] = []
  set_elem zero a (x ∷ s) = a ∷ s
  set_elem (suc i) a (x ∷ s) = x ∷ set_elem i a s

module _ {H S : Type 0} where
  abbrev pub identity : MiddlewareType H S → ℕ
  identity (plain n f) = n
  identity (contextual n f) = n
  identity (unknown n) = n

  -- The layer that `appendLayer` makes; on a value of another kind the program ends.
  abbrev pub layer_of : MiddlewareType H S → Option (Layer H S)
  layer_of (plain n f) = some (record { fn = f; orig = n })
  layer_of (contextual n f) = some (record { fn = f; orig = n })
  layer_of (unknown n) = none

  -- `findLayer`; -1 is `none`.
  unfoldable pub find_layer : ℕ → List (Layer H S) → Option ℕ
  find_layer l [] = none
  find_layer l (x ∷ xs) =
      let later = find_layer l xs in if l == x.orig then some 0 else next_index later

  -- `invalidate`
  unfoldable pub invalidate : MStack H S → MStack H S
  invalidate ms = record ms {
    pool = record { address = ms.pools_made; spare = [] };
    pools_made = suc ms.pools_made;
  }

  -- `newStack`: the layers around the router, the first outermost.
  unfoldable pub build : HttpHandler H S → List (Layer H S) → HttpHandler H S
  build router [] = router
  build router (x ∷ xs) = x.fn (build router xs)

  unfoldable pub new_stack : MStack H S → CStack H S
  unfolding build
  new_stack ms = record { context = empty_context; m = build ms.router ms.stack; pool = none }

  -- `cPool.alloc`: one of the spare stacks, by its position `n`, or nil. Which one the pool gives, or
  -- whether it gives one at all, is open.
  unfoldable pub get_spare : ℕ → List (CStack H S) → Option (CStack H S) × List (CStack H S)
  get_spare n [] = (none, [])
  get_spare zero (c ∷ cs) = (some c, cs)
  get_spare (suc n) (c ∷ cs) = let (o, rest) = get_spare n cs in (o, c ∷ rest)

  abbrev pub or_new : MStack H S → Option (CStack H S) → CStack H S
  or_new ms none = new_stack ms
  or_new ms (some c) = c

  -- `alloc`
  unfoldable pub alloc : ℕ → MStack H S → CStack H S × MStack H S
  unfolding get_spare new_stack
  alloc n ms =
      let (o, rest) = get_spare n ms.pool.spare in
      (
        record (or_new ms o) { pool = some ms.pool.address },
        record ms { pool = record ms.pool { spare = rest } },
      )

  -- `release`
  unfoldable pub release : CStack H S → MStack H S → MStack H S
  release c ms =
      let c' = record c { context = empty_context; pool = none } in
      if is_pool c.pool ms.pool.address
      then record ms { pool = record ms.pool { spare = c' ∷ ms.pool.spare } }
      else ms

  unfoldable pub use_layer : Option (Layer H S) → MStack H S → Changed H S
  use_layer none ms = fatal
  use_layer (some l) ms = changed (invalidate (record ms { stack = ms.stack ++ l ∷ [] }))

  -- `Use`
  unfoldable pub use_middleware : MiddlewareType H S → MStack H S → Changed H S
  unfolding use_layer invalidate
  use_middleware mw ms = use_layer (layer_of mw) ms

  -- The slice after `appendLayer`, the copy and the assignment.
  abbrev pub inserted_at : ℕ → Layer H S → List (Layer H S) → List (Layer H S)
  inserted_at i l stack =
      let longer = stack ++ l ∷ [] in set_elem i l (copy_from (suc i) (drop i longer) longer)

  pub insert_layer : Option ℕ → Option (Layer H S) → MStack H S → Changed H S
  insert_layer none l ms = unknown_middleware ms
  insert_layer (some i) none ms = fatal
  insert_layer (some i) (some l) ms =
      changed (invalidate (record ms { stack = inserted_at i l ms.stack }))

  -- `Insert`
  unfoldable pub insert_middleware :
      MiddlewareType H S → MiddlewareType H S → MStack H S → Changed H S
  unfolding insert_layer find_layer invalidate
  insert_middleware mw before ms =
      insert_layer (find_layer (identity before) ms.stack) (layer_of mw) ms

  -- The copy and the slice without its last element.
  abbrev pub removed_at : ℕ → List (Layer H S) → List (Layer H S)
  removed_at i stack = take (length stack - 1) (copy_from i (drop (suc i) stack) stack)

  pub abandon_layer : Option ℕ → MStack H S → Changed H S
  abandon_layer none ms = unknown_middleware ms
  abandon_layer (some i) ms = changed (invalidate (record ms { stack = removed_at i ms.stack }))

  -- `Abandon`
  unfoldable pub abandon_middleware : MiddlewareType H S → MStack H S → Changed H S
  unfolding abandon_layer find_layer invalidate
  abandon_middleware mw ms = abandon_layer (find_layer (identity mw) ms.stack) ms

  -- `cStack.ServeHTTPC`
  abbrev pub serve_http_c : CStack H S → Context H → Request → S → Context H × S
  serve_http_c cs c r s = cs.m r (c, s)

  -- `cStack.ServeHTTP`
  abbrev pub serve_http : CStack H S → Request → S → Context H × S
  serve_http cs r s = cs.m r (empty_context, s)
