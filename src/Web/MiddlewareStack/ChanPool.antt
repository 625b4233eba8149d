-- ===== src/Web/MiddlewareStack/ChanPool.antt =====
-- web/chanpool.go: the pool of spare stacks before Go 1.3, a channel that holds `cPoolSize` of them.
use goji.Prelude.{
  ℕ, ◌≤◌, ◌≡◌, refl, Option, none, some, List, [], ◌∷◌, ◌++◌, length, ltb, length-append,
  if◌then◌else◌, arith,
}
use goji.Web.MiddlewareStack.{CStack, get_spare}

abbrev pub c_pool_size : ℕ
c_pool_size = 32

module _ {H S : Type 0} where
  -- `cPool.alloc`: the stack that has waited longest, or nil.
  unfoldable pub chan_alloc : List (CStack H S) → Option (CStack H S) × List (CStack H S)
  chan_alloc [] = (none, [])
  chan_alloc (c ∷ cs) = (some c, cs)

  -- `cPool.release`: a stack that finds the channel full is dropped.
  unfoldable pub chan_release : CStack H S → List (CStack H S) → List (CStack H S)
  chan_release c cs = if ltb (length cs) c_pool_size then cs ++ c ∷ [] else cs

  -- `alloc` on the channel is one that the pool of Go 1.3 may make too.
  pub chan_alloc-get_spare : (cs : List (CStack H S)) → chan_alloc cs ≡ get_spare 0 cs
  unfolding chan_alloc get_spare
  chan_alloc-get_spare [] = refl
  chan_alloc-get_spare (c ∷ cs) = refl

  -- The channel never holds more stacks than its size.
  pub length-chan_release :
      (c : CStack H S) (cs : List (CStack H S))
      → length cs ≤ c_pool_size
      → length (chan_release c cs) ≤ c_pool_size
  unfolding chan_release
  length-chan_release c cs h = ground (arith, h, length-append cs (c ∷ []))
