-- ===== src/Web/MiddlewareStack/Pooling.antt =====
-- web/middleware.go: histories of a stack, and what a cached instance is.
use goji.Prelude.{
  ℕ, zero, suc, ◌<◌, ◌≡◌, refl, sym, ◌∙◌, ap, subst, Option, none, some, List, [], ◌∷◌, ◌++◌, arith,
  Bool-cases, inl, inr, All, All-left, All-right, All-append,
}
use goji.Web.MiddlewareStack.{
  HttpHandler, CStack, MStack, layer_of, find_layer, identity, build, new_stack, get_spare, or_new,
  alloc, is_pool, release, use_middleware, insert_middleware, abandon_middleware,
}
use goji.Web.MiddlewareStack.Steps.{
  Step, Steps, or_else, new_mstack, IsCurrent, IsTraced, IsSound, IsSound-Renewed, use-Renewed,
  insert-Renewed, abandon-Renewed, uses, inserts, abandons, allocates, releases, step, start,
}

module _ {H S : Type 0} where
  get_spare-All :
      (P : CStack H S → Type 0) (n : ℕ) (cs : List (CStack H S))
      → All P cs
      → All P (get_spare n cs).1 × ((c : CStack H S) → (get_spare n cs).0 ≡ some c → P c)
  unfolding get_spare
  get_spare-All P n [] h = (tt, λ c e. cc)
  get_spare-All P zero (x ∷ cs) (h, hs) = (hs, λ c e. subst P (ap (or_else c) e) h)
  get_spare-All P (suc n) (x ∷ cs) (h, hs) =
      let (rest, got) = get_spare-All P n cs hs in ((h, rest), got)

  or_new-IsCurrent :
      (ms : MStack H S) (o : Option (CStack H S))
      → ((c : CStack H S) → o ≡ some c → IsCurrent ms c)
      → IsCurrent ms (or_new ms o)
  unfolding new_stack
  or_new-IsCurrent ms none h = refl
  or_new-IsCurrent ms (some c) h = h c refl

  alloc-IsCurrent :
      (n : ℕ) (ms : MStack H S) → All (IsCurrent ms) ms.pool.spare → IsCurrent ms (alloc n ms).0
  unfolding alloc
  alloc-IsCurrent n ms h =
      or_new-IsCurrent ms (get_spare n ms.pool.spare).0
        (get_spare-All (IsCurrent ms) n ms.pool.spare h).1

  IsSound-alloc :
      (router : HttpHandler H S) (n : ℕ) (ms : MStack H S) (out : List (CStack H S))
      → IsSound router ms out
      → IsSound router (alloc n ms).1 ((alloc n ms).0 ∷ out)
  unfolding alloc
  IsSound-alloc router n ms out h = record {
    routed = h.routed;
    made = h.made;
    spare_current = (get_spare-All (IsCurrent ms) n ms.pool.spare h.spare_current).0;
    out_traced = (
      (
        λ p e. subst (λ q. q < ms.pools_made) (ap (or_else p) e) h.made,
        λ same. alloc-IsCurrent n ms h.spare_current,
      ),
      h.out_traced,
    );
  }

  IsSound-release :
      (router : HttpHandler H S) (ms : MStack H S) (out : List (CStack H S)) (c : CStack H S)
      → IsTraced ms c
      → IsSound router ms out
      → IsSound router (release c ms) out
  unfolding release
  IsSound-release router ms out c t h = elim (Bool-cases (is_pool c.pool ms.pool.address)) [
    | inl ours ↦ rw ours (record {
      routed = h.routed;
      made = h.made;
      spare_current = (t.1 ours, h.spare_current);
      out_traced = h.out_traced;
    })
    | inr other ↦ rw other h
  ]

  IsSound-Step :
      (router : HttpHandler H S) (ms ms' : MStack H S) (out out' : List (CStack H S))
      → Step ms out ms' out'
      → IsSound router ms out
      → IsSound router ms' out'
  unfolding use_middleware insert_middleware abandon_middleware
  IsSound-Step router ms _ out _ (uses mw ms' e) h =
      IsSound-Renewed router ms ms' out (use-Renewed (layer_of mw) ms ms' e) h
  IsSound-Step router ms _ out _ (inserts mw before ms' e) h =
      IsSound-Renewed router ms ms' out
        (insert-Renewed (find_layer (identity before) ms.stack) (layer_of mw) ms ms' e) h
  IsSound-Step router ms _ out _ (abandons mw ms' e) h =
      IsSound-Renewed router ms ms' out
        (abandon-Renewed (find_layer (identity mw) ms.stack) ms ms' e) h
  IsSound-Step router ms _ out _ (allocates n c ms' e) h =
      subst (λ q. IsSound router q.1 (q.0 ∷ out)) e (IsSound-alloc router n ms out h)
  IsSound-Step router ms _ out _ (releases front c back out' x ms' e e' er) h =
      let t = subst (All (IsTraced ms)) e h.out_traced in
      let (own, behind) = All-right (IsTraced ms) front (c ∷ back) t in
      let left : All (IsTraced ms) (front ++ back) =
        All-append (IsTraced ms) front back (All-left (IsTraced ms) front (c ∷ back) t) behind in
      let h' : IsSound router ms (front ++ back) = record {
        routed = h.routed;
        made = h.made;
        spare_current = h.spare_current;
        out_traced = left;
      } in
      subst (IsSound router ms') (sym e') (
        subst (λ m. IsSound router m (front ++ back)) (sym er)
          (IsSound-release router ms (front ++ back) (record c { context = x }) own h'))

  IsSound-Steps :
      (router : HttpHandler H S) (ms : MStack H S) (out : List (CStack H S)) (ms' : MStack H S)
      (out' : List (CStack H S))
      → Steps ms out ms' out'
      → IsSound router ms out
      → IsSound router ms' out'
  IsSound-Steps router ms out _ _ start h = h
  IsSound-Steps router ms out _ _ (step ms' out' ms'' out'' before last) h =
      IsSound-Step router ms' ms'' out' out'' last (IsSound-Steps router ms out ms' out' before h)

  new_mstack-IsSound : (router : HttpHandler H S) → IsSound router (new_mstack router) []
  new_mstack-IsSound router = record {
    routed = refl;
    made = omega arith;
    spare_current = tt;
    out_traced = tt;
  }

  -- After any steps of a new stack, `Use`, `Insert` and `Abandon` between and during requests
  -- included, and whichever spare instance the pool gives or none: the instance that `alloc` gives is
  -- built from the layers of now around the router. No instance of an earlier list of layers is
  -- ever given out again, though requests that began before the change come back later.
  pub alloc-current :
      (router : HttpHandler H S) (ms : MStack H S) (out : List (CStack H S)) (n : ℕ)
      → Steps (new_mstack router) [] ms out
      → (alloc n ms).0.m ≡ build router ms.stack
  alloc-current router ms out n steps =
      let h =
        IsSound-Steps router (new_mstack router) [] ms out steps (new_mstack-IsSound router) in
      alloc-IsCurrent n ms h.spare_current ∙ ap (λ r. build r ms.stack) h.routed
