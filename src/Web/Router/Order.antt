-- ===== src/Web/Router/Order.antt =====
-- web/router.go: the order of the routes, and the routes that are plausible for a path.
use goji.Prelude.{
  ◌≡◌, refl, sym, ◌∙◌, ap, subst, true, false, List, [], ◌∷◌, ◌++◌, arith, Bool-cases, inl, inr,
  ◌⊎◌, All, keep, keep-append,
}
use mathlib.Core.List.{append_assoc, append-nil}
use goji.Prelude.Bytes.{Bytes, has_prefix, str_le_total, has_prefix-str_le}
use goji.Web.Method.{Method}
use goji.Web.Route.{Pattern, Route, stays_before, plausible}
use goji.Web.Bytecode.Trie.Hits.{IsOrdered}
use goji.Web.Router.{Router, new_route, handle}
use goji.Web.Router.Insertion.{Passed, EndsBefore, handle-routes}

-- If the one may not stay in front, the other may.
stays_before_swap : (p q : Bytes) → stays_before p q ≡ false → stays_before q p ≡ true
stays_before_swap p q h = ground (arith, str_le_total p q)

-- Two prefixes of one path never pass each other.
stays_of_common :
    (path p q : Bytes)
    → has_prefix path p ≡ true
    → has_prefix path q ≡ true
    → stays_before p q ≡ true
stays_of_common path p q hp hq = ground (arith, has_prefix-str_le path p q)

module _ {C H : Type 0} where
  IsOrdered-insert :
      (front back : List (Route C H)) (r : Route C H)
      → IsOrdered (front ++ back)
      → All (Passed r.prefix) back
      → EndsBefore r.prefix front
      → IsOrdered (front ++ r ∷ back)
  IsOrdered-insert [] [] r o h e = (tt, tt)
  IsOrdered-insert [] (b ∷ back) r o h e = (stays_before_swap b.prefix r.prefix h.0, o)
  IsOrdered-insert (f ∷ []) back r o h e = (e, IsOrdered-insert [] back r o.1 h tt)
  IsOrdered-insert (f ∷ f' ∷ front) back r o h e =
      (o.0, IsOrdered-insert (f' ∷ front) back r o.1 h e)

  keep-Passed :
      (path pp : Bytes) (back : List (Route C H))
      → All (Passed pp) back
      → has_prefix path pp ≡ true
      → keep (plausible path) back ≡ []
  keep-Passed path pp [] h e = refl
  keep-Passed path pp (b ∷ back) (h, hs) e = elim (Bool-cases (has_prefix path b.prefix)) [
    | inl hit ↦ cc (stays_of_common path b.prefix pp hit e)
    | inr miss ↦ rw miss (keep-Passed path pp back hs e)
  ]

  keep-insert :
      (path : Bytes) (front back : List (Route C H)) (r : Route C H)
      → All (Passed r.prefix) back
      → keep (plausible path) (front ++ r ∷ back)
        ≡ keep (plausible path) ((front ++ back) ++ r ∷ [])
  keep-insert path front back r h =
      keep-append (plausible path) front (r ∷ back)
      ∙ ap (◌++◌ (keep (plausible path) front)) (moved (Bool-cases (has_prefix path r.prefix)))
      ∙ sym (append_assoc (keep (plausible path) front) _ _)
      ∙ ap (λ l. l ++ keep (plausible path) (r ∷ []))
          (sym (keep-append (plausible path) front back))
      ∙ sym (keep-append (plausible path) (front ++ back) (r ∷ []))
    where
      moved :
          (has_prefix path r.prefix ≡ true) ⊎ (has_prefix path r.prefix ≡ false)
          → keep (plausible path) (r ∷ back)
            ≡ keep (plausible path) back ++ keep (plausible path) (r ∷ [])
      moved (inl hit) = rw (hit, keep-Passed path r.prefix back h hit)
      moved (inr miss) = rw miss (sym (append-nil _))

  -- `handle` keeps the routes in the order that the compiler relies on: of any two neighbours the
  -- first has the smaller prefix, or one that begins with the second's.
  pub handle-IsOrdered :
      (rt : Router C H) (p : Pattern C) (m : Method) (h : H)
      → IsOrdered rt.routes
      → IsOrdered (handle rt p m h).routes
  handle-IsOrdered rt p m h o =
      let (front, back, whole, after, passed, stays) = handle-routes rt p m h in
      subst IsOrdered (sym after)
        (IsOrdered-insert front back (new_route p m h) (subst IsOrdered whole o) passed stays)

  -- Wherever `handle` puts the new route: for every path the plausible routes are those from
  -- before, in their order, with the new one behind them if it is plausible.
  pub handle-plausible :
      (rt : Router C H) (p : Pattern C) (m : Method) (h : H) (path : Bytes)
      → keep (plausible path) (handle rt p m h).routes
        ≡ keep (plausible path) (rt.routes ++ new_route p m h ∷ [])
  handle-plausible rt p m h path =
      let (front, back, whole, after, passed, stays) = handle-routes rt p m h in
      ap (keep (plausible path)) after
      ∙ keep-insert path front back (new_route p m h) passed
      ∙ ap (λ l. keep (plausible path) (l ++ new_route p m h ∷ [])) (sym whole)
