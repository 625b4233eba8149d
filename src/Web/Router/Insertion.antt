-- ===== src/Web/Router/Insertion.antt =====
-- web/router.go: where `handle` puts a route.
use goji.Prelude.{
  ℕ, zero, suc, ◌≡◌, refl, sym, ◌∙◌, ap, ap₂, subst, true, false, some, List, [], ◌∷◌, ◌++◌, length,
  get_elem?, take, drop, arith, Bool-cases, inl, inr, All, get_elem?-append, take-append,
  drop-append,
}
use mathlib.Core.List.{append_assoc, append-nil}
use goji.Prelude.Bytes.{Bytes}
use goji.Web.Method.{Method}
use goji.Web.Route.{Pattern, Route, stays_before}
use goji.Web.Router.{Router, stays_at, insertion_point, new_route, handle}

module _ {C H : Type 0} where
  -- A route that a new one with the prefix `pp` is put in front of.
  abbrev pub Passed : Bytes → Route C H → Type 0
  Passed pp r = stays_before r.prefix pp ≡ false

  -- The list is empty, or its last route stays in front of `pp`.
  abbrev pub EndsBefore : Bytes → List (Route C H) → Type 0
  EndsBefore pp [] = Unit
  EndsBefore pp (r ∷ []) = stays_before r.prefix pp ≡ true
  EndsBefore pp (r ∷ r' ∷ rs) = EndsBefore pp (r' ∷ rs)

  EndsBefore-snoc :
      (pp : Bytes) (rs : List (Route C H)) (r : Route C H)
      → stays_before r.prefix pp ≡ true
      → EndsBefore pp (rs ++ r ∷ [])
  EndsBefore-snoc pp [] r h = h
  EndsBefore-snoc pp (x ∷ []) r h = h
  EndsBefore-snoc pp (x ∷ x' ∷ rs) r h = EndsBefore-snoc pp (x' ∷ rs) r h

  -- The split of the routes at the insertion point.
  pub record Split (routes : List (Route C H)) (pp : Bytes) (i : ℕ) : Type 0 where
    pub front : List (Route C H)
    pub back : List (Route C H)
    pub whole : routes ≡ front ++ back
    pub at_point : length front ≡ i
    pub passed : All (Passed pp) back
    pub stays : EndsBefore pp front

  last-split :
      (n : ℕ) (xs : List (Route C H))
      → length xs ≡ suc n
      → (ys : List (Route C H)) × (z : Route C H) × (xs ≡ ys ++ z ∷ []) × (length ys ≡ n)
  last-split n [] e = absurd (omega arith)
  last-split n (x ∷ []) e = ([], x, refl, omega arith)
  last-split zero (x ∷ x' ∷ xs) e = absurd (omega arith)
  last-split (suc n) (x ∷ x' ∷ xs) e =
      let (ys, z, e', l) = last-split n (x' ∷ xs) (omega arith) in
      (x ∷ ys, z, ap (◌∷◌ x) e', omega arith)

  insertion_point_stop :
      (routes : List (Route C H)) (pp : Bytes) (n : ℕ)
      → stays_at (get_elem? routes n) pp ≡ true
      → insertion_point routes pp (suc n) ≡ suc n
  unfolding insertion_point
  insertion_point_stop routes pp n e = rw e

  insertion_point_go :
      (routes : List (Route C H)) (pp : Bytes) (n : ℕ)
      → stays_at (get_elem? routes n) pp ≡ false
      → insertion_point routes pp (suc n) ≡ insertion_point routes pp n
  unfolding insertion_point
  insertion_point_go routes pp n e = rw e

  insertion_point-Split :
      (pp : Bytes) (n : ℕ) (pre post : List (Route C H))
      → length pre ≡ n
      → All (Passed pp) post
      → Split (pre ++ post) pp (insertion_point (pre ++ post) pp n)
  unfolding insertion_point
  insertion_point-Split pp zero [] post e h = record {
    front = [];
    back = post;
    whole = refl;
    at_point = refl;
    passed = h;
    stays = tt;
  }
  insertion_point-Split pp zero (x ∷ pre) post e h = absurd (omega arith)
  insertion_point-Split pp (suc n) pre post e h =
      let (ys, z, e', l) = last-split n pre e in
      let whole : pre ++ post ≡ ys ++ z ∷ post =
        ap (λ t. t ++ post) e' ∙ append_assoc ys (z ∷ []) post in
      let found : get_elem? (pre ++ post) n ≡ some z =
        subst (λ t. get_elem? t n ≡ some z) (sym whole)
          (subst (λ m. get_elem? (ys ++ z ∷ post) m ≡ some z) l (get_elem?-append ys z post)) in
      let test : stays_at (get_elem? (pre ++ post) n) pp ≡ stays_before z.prefix pp =
        ap (λ o. stays_at o pp) found in
      elim (Bool-cases (stays_before z.prefix pp)) [
        | inl stay ↦
            subst (Split (pre ++ post) pp)
              (sym (insertion_point_stop (pre ++ post) pp n (test ∙ stay)))
              (record {
                front = pre;
                back = post;
                whole = refl;
                at_point = e;
                passed = h;
                stays = subst (EndsBefore pp) (sym e') (EndsBefore-snoc pp ys z stay);
              })
        | inr move ↦
            subst (Split (pre ++ post) pp)
              (sym (insertion_point_go (pre ++ post) pp n (test ∙ move)))
              (subst (λ t. Split t pp (insertion_point t pp n)) (sym whole)
                (insertion_point-Split pp n ys (z ∷ post) l (move, h)))
      ]

  -- `handle` keeps the routes in their order around the new one.
  pub handle-routes :
      (rt : Router C H) (p : Pattern C) (m : Method) (h : H)
      → (front : List (Route C H)) × (back : List (Route C H)) × (rt.routes ≡ front ++ back)
        × ((handle rt p m h).routes ≡ front ++ new_route p m h ∷ back)
        × All (Passed p.prefix) back
        × EndsBefore p.prefix front
  unfolding handle
  handle-routes rt p m h =
      let s =
        subst (λ t. Split t p.prefix (insertion_point t p.prefix (length rt.routes)))
          (append-nil rt.routes)
          (insertion_point-Split p.prefix (length rt.routes) rt.routes [] refl tt) in
      (
        s.front,
        s.back,
        s.whole,
        ap₂ (λ a b. a ++ new_route p m h ∷ b)
            (ap₂ take (sym s.at_point) s.whole ∙ take-append s.front s.back)
            (ap₂ drop (sym s.at_point) s.whole ∙ drop-append s.front s.back),
        s.passed,
        s.stays,
      )
