-- ===== src/Web/MiddlewareStack/Layers.antt =====
-- web/middleware.go: `Insert` and `Abandon` on the slice of layers.
use goji.Prelude.{
  ℕ, zero, suc, ◌+◌, ◌-◌, ◌≡◌, refl, sym, ◌∙◌, ap, ap₂, true, false, none, some, List, [], ◌∷◌,
  ◌++◌, length, take, drop, ◌==◌, arith, All, take-append, drop-append, length-append,
}
use mathlib.Core.List.{append_assoc, append-nil}
use goji.Web.MiddlewareStack.{
  MiddlewareType, Layer, MStack, changed, unknown_middleware, copy_from, set_elem, identity,
  layer_of, find_layer, invalidate, insert_middleware, insert_layer, inserted_at,
  abandon_middleware, abandon_layer, removed_at,
}

module _ {A : Type 0} where
  copy_from-cons :
      (i : ℕ) (src : List A) (x : A) (s : List A)
      → copy_from (suc i) src (x ∷ s) ≡ x ∷ copy_from i src s
  copy_from-cons i src x s =
      let e : suc (length s) - suc i ≡ length s - i = omega arith in
      let e' : suc i + length src ≡ suc (i + length src) = omega arith in
      ap₂ (λ a b. x ∷ (take i s ++ (take a src ++ drop b (x ∷ s)))) e e'

  copy_from-append :
      (front : List A) (k : ℕ) (src s : List A)
      → copy_from (length front + k) src (front ++ s) ≡ front ++ copy_from k src s
  copy_from-append [] k src s = ap (λ j. copy_from j src s) (omega arith)
  copy_from-append (x ∷ front) k src s =
      let e : suc (length front) + k ≡ suc (length front + k) = omega arith in
      ap (λ j. copy_from j src (x ∷ (front ++ s))) e
      ∙ copy_from-cons (length front + k) src x (front ++ s)
      ∙ ap (◌∷◌ x) (copy_from-append front k src s)

  set_elem-append :
      (front : List A) (a x : A) (s : List A)
      → set_elem (length front) a (front ++ x ∷ s) ≡ front ++ a ∷ s
  set_elem-append [] a x s = refl
  set_elem-append (y ∷ front) a x s = ap (◌∷◌ y) (set_elem-append front a x s)

  take_long : (n : ℕ) (s : List A) → take (length s + n) s ≡ s
  take_long n [] = take_none (0 + n)
    where
      take_none : (k : ℕ) → take {A = A} k [] ≡ []
      take_none zero = refl
      take_none (suc k) = refl
  take_long n (x ∷ s) =
      let e : suc (length s) + n ≡ suc (length s + n) = omega arith in
      ap (λ k. take k (x ∷ s)) e ∙ ap (◌∷◌ x) (take_long n s)

  drop_long : (n : ℕ) (s : List A) → drop (length s + n) s ≡ []
  drop_long n [] = drop_none (0 + n)
    where
      drop_none : (k : ℕ) → drop {A = A} k [] ≡ []
      drop_none zero = refl
      drop_none (suc k) = refl
  drop_long n (x ∷ s) =
      let e : suc (length s) + n ≡ suc (length s + n) = omega arith in
      ap (λ k. drop k (x ∷ s)) e ∙ drop_long n s

  drop-next :
      (front : List A) (x : A) (back : List A)
      → drop (suc (length front)) (front ++ x ∷ back) ≡ back
  drop-next [] x back = refl
  drop-next (y ∷ front) x back = drop-next front x back

  -- The copy that moves the tail up by one.
  copy_up :
      (y l : A) (back : List A)
      → copy_from 1 (y ∷ (back ++ l ∷ [])) (y ∷ (back ++ l ∷ [])) ≡ y ∷ y ∷ back
  copy_up y l back =
      let s = y ∷ (back ++ l ∷ []) in
      let n : length s - 1 ≡ length (y ∷ back) = omega (arith, length-append back (l ∷ [])) in
      let n' : 1 + length s ≡ length s + 1 = omega arith in
      ap₂ (λ a b. y ∷ (take a s ++ drop b s)) n n'
      ∙ ap₂ (λ a b. y ∷ (a ++ b)) (take-append (y ∷ back) (l ∷ [])) (drop_long 1 s)
      ∙ ap (λ t. y ∷ y ∷ t) (append-nil back)

  -- The copy that moves the tail down by one.
  copy_down :
      (l : A) (back : List A) → copy_from 0 back (l ∷ back) ≡ back ++ drop (length back) (l ∷ back)
  copy_down l back =
      let n : suc (length back) - 0 ≡ length back + 1 = omega arith in
      let n' : 0 + length back ≡ length back = omega arith in
      ap₂ (λ a b. take a back ++ drop b (l ∷ back)) n n'
      ∙ ap (λ t. t ++ drop (length back) (l ∷ back)) (take_long 1 back)

module _ {H S : Type 0} where
  inserted_at-append :
      (front : List (Layer H S)) (l y : Layer H S) (back : List (Layer H S))
      → inserted_at (length front) l (front ++ y ∷ back) ≡ front ++ l ∷ y ∷ back
  inserted_at-append front l y back =
      let longer = front ++ y ∷ (back ++ l ∷ []) in
      let n : suc (length front) ≡ length front + 1 = omega arith in
      ap (λ s. set_elem (length front) l (copy_from (suc (length front)) (drop (length front) s) s))
        (append_assoc front (y ∷ back) (l ∷ []))
      ∙ ap₂ (λ k src. set_elem (length front) l (copy_from k src longer)) n (drop-append front _)
      ∙ ap (set_elem (length front) l)
          (copy_from-append front 1 _ _ ∙ ap (◌++◌ front) (copy_up y l back))
      ∙ set_elem-append front l y (y ∷ back)

  removed_at-append :
      (front : List (Layer H S)) (l : Layer H S) (back : List (Layer H S))
      → removed_at (length front) (front ++ l ∷ back) ≡ front ++ back
  removed_at-append front l back =
      let s = front ++ l ∷ back in
      let tail = drop (length back) (l ∷ back) in
      let src : drop (suc (length front)) s ≡ back = drop-next front l back in
      let n : length front ≡ length front + 0 = omega arith in
      let len : length s - 1 ≡ length (front ++ back) =
        omega (arith, length-append front (l ∷ back), length-append front back) in
      ap₂ (λ k t. take k (copy_from (length front) t s)) len src
      ∙ ap (λ k. take (length (front ++ back)) (copy_from k back s)) n
      ∙ ap (take (length (front ++ back))) (
          copy_from-append front 0 back (l ∷ back)
          ∙ ap (◌++◌ front) (copy_down l back)
          ∙ sym (append_assoc front back tail))
      ∙ take-append (front ++ back) tail

  find_layer-first :
      (n : ℕ) (front : List (Layer H S)) (l : Layer H S) (back : List (Layer H S))
      → All (λ x. (n == x.orig) ≡ false) front
      → (n == l.orig) ≡ true
      → find_layer n (front ++ l ∷ back) ≡ some (length front)
  unfolding find_layer
  find_layer-first n [] l back h e = rw e
  find_layer-first n (x ∷ front) l back (h, hs) e = rw (h, find_layer-first n front l back hs e)

  find_layer-none :
      (n : ℕ) (ls : List (Layer H S)) → All (λ x. (n == x.orig) ≡ false) ls → find_layer n ls ≡ none
  unfolding find_layer
  find_layer-none n [] h = refl
  find_layer-none n (x ∷ ls) (h, hs) = rw (h, find_layer-none n ls hs)

  -- `Insert` of a function puts its layer right in front of the first layer with the identity asked
  -- for, and leaves the order of the others; the pool is a new and empty one.
  pub insert_middleware-first :
      (mw before : MiddlewareType H S) (new : Layer H S) (ms : MStack H S)
      (front : List (Layer H S)) (l : Layer H S) (back : List (Layer H S))
      → layer_of mw ≡ some new
      → ms.stack ≡ front ++ l ∷ back
      → All (λ x. (identity before == x.orig) ≡ false) front
      → (identity before == l.orig) ≡ true
      → insert_middleware mw before ms
        ≡ changed (invalidate (record ms { stack = front ++ new ∷ l ∷ back }))
  unfolding insert_middleware insert_layer
  insert_middleware-first mw before new ms front l back em es h e =
      rw (es, find_layer-first (identity before) front l back h e, em)
        (ap (λ s. changed (invalidate (record ms { stack = s })))
          (inserted_at-append front new l back))

  -- `Abandon` takes the first layer with the identity out, and leaves the order of the others.
  pub abandon_middleware-first :
      (mw : MiddlewareType H S) (ms : MStack H S) (front : List (Layer H S)) (l : Layer H S)
      (back : List (Layer H S))
      → ms.stack ≡ front ++ l ∷ back
      → All (λ x. (identity mw == x.orig) ≡ false) front
      → (identity mw == l.orig) ≡ true
      → abandon_middleware mw ms ≡ changed (invalidate (record ms { stack = front ++ back }))
  unfolding abandon_middleware abandon_layer
  abandon_middleware-first mw ms front l back es h e =
      rw (es, find_layer-first (identity mw) front l back h e)
        (ap (λ s. changed (invalidate (record ms { stack = s }))) (removed_at-append front l back))

  -- Where no layer has the identity asked for, `Insert` and `Abandon` return an error and change
  -- nothing, and `Insert` does not look at the kind of the new middleware.
  pub unknown-unchanged :
      (mw before : MiddlewareType H S) (ms : MStack H S)
      → All (λ x. (identity before == x.orig) ≡ false) ms.stack
      → (insert_middleware mw before ms ≡ unknown_middleware ms)
        × (abandon_middleware before ms ≡ unknown_middleware ms)
  unfolding insert_middleware insert_layer abandon_middleware abandon_layer
  unknown-unchanged mw before ms h =
      let e = find_layer-none (identity before) ms.stack h in (rw e, rw e)
