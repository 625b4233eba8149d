-- ===== src/Web/Bytecode/Trie/Hits.antt =====
-- web/bytecode_compiler.go: the plausible routes of a list, by their indices, and the order of the
-- list that the compiler relies on.
use goji.Prelude.{
  ℕ, suc, ◌+◌, ◌≤◌, ◌<◌, ◌≡◌, refl, sym, ◌∙◌, ap, ap₂, true, false, List, [], ◌∷◌, ◌++◌, length,
  if◌then◌else◌, arith, All,
}
use mathlib.Core.List.{append_assoc}
use goji.Prelude.Bytes.{
  Bytes, has_prefix, has_prefix_cancel, str_le_cancel, has_prefix-append_false,
}
use goji.Web.Route.{Route, stays_before}

-- Of two neighbours that go on behind `w`, the second goes on with no smaller byte.
pub stays_before-le :
    (w p q : Bytes) (a b : ℕ) → stays_before (w ++ a ∷ p) (w ++ b ∷ q) ≡ true → a ≤ b
stays_before-le w p q a b h =
    ground (arith, str_le_cancel w (a ∷ p) (b ∷ q), has_prefix_cancel w (a ∷ p) (b ∷ q))

-- A prefix that goes on with a larger byte than the path.
miss_above :
    (w q s pre : Bytes) (a b : ℕ) → pre ≡ w ++ b ∷ q → a < b → has_prefix (w ++ a ∷ s) pre ≡ false
miss_above w q s pre a b eq lt =
    ap (has_prefix (w ++ a ∷ s)) eq ∙ has_prefix_cancel w (a ∷ s) (b ∷ q) ∙ ground arith

module _ {C H : Type 0} where
  abbrev pub IsHead : Route C H → List (Route C H) → Type 0
  IsHead r [] = Unit
  IsHead r (r' ∷ rs) = stays_before r.prefix r'.prefix ≡ true

  -- Any two neighbours are in order.
  abbrev pub IsOrdered : List (Route C H) → Type 0
  IsOrdered [] = Unit
  IsOrdered (r ∷ rs) = IsHead r rs × IsOrdered rs

  -- The prefix begins with `w`.
  abbrev pub Under : Bytes → Route C H → Type 0
  Under w r = (q : Bytes) × (r.prefix ≡ w ++ q)

  -- It goes on behind it.
  abbrev pub Beyond : Bytes → Route C H → Type 0
  Beyond w r = (b : ℕ) × (q : Bytes) × (r.prefix ≡ w ++ b ∷ q)

  unfoldable pub hits : ℕ → List (Route C H) → Bytes → List ℕ
  hits n [] path = []
  hits n (r ∷ rs) path =
      if has_prefix path r.prefix then n ∷ hits (suc n) rs path else hits (suc n) rs path

  pub hits-append :
      (n n' : ℕ) (xs ys : List (Route C H)) (path : Bytes)
      → n + length xs ≡ n'
      → hits n (xs ++ ys) path ≡ hits n xs path ++ hits n' ys path
  unfolding hits
  hits-append n n' [] ys path e = ap (λ m. hits m ys path) (omega arith)
  hits-append n n' (x ∷ xs) ys path e = ground (arith, hits-append (suc n) n' xs ys path)

  pub IsOrdered-right : (xs ys : List (Route C H)) → IsOrdered (xs ++ ys) → IsOrdered ys
  IsOrdered-right [] ys h = h
  IsOrdered-right (x ∷ xs) ys h = IsOrdered-right xs ys h.1

  pub IsOrdered-left : (xs ys : List (Route C H)) → IsOrdered (xs ++ ys) → IsOrdered xs
  IsOrdered-left [] ys h = tt
  IsOrdered-left (x ∷ []) ys h = (tt, tt)
  IsOrdered-left (x ∷ x' ∷ xs) ys h = (h.0, IsOrdered-left (x' ∷ xs) ys h.1)

  -- Routes that do not begin with `w ++ p` where the path does not go on with `p`.
  pub hits-none :
      (w p s : Bytes) (n : ℕ) (g : List (Route C H))
      → All (Under (w ++ p)) g
      → has_prefix s p ≡ false
      → hits n g (w ++ s) ≡ []
  unfolding hits
  hits-none w p s n [] h e = refl
  hits-none w p s n (r ∷ g) ((q, eq), h) e =
      let miss : has_prefix (w ++ s) r.prefix ≡ false =
        ap (has_prefix (w ++ s)) (eq ∙ append_assoc w p q)
        ∙ has_prefix_cancel w s (p ++ q)
        ∙ has_prefix-append_false s p q e in
      rw miss (hits-none w p s (suc n) g h e)

  -- Nor is one of an ordered list plausible whose first goes on with a larger byte than the path.
  pub hits_above :
      (w q s : Bytes) (a b n : ℕ) (r : Route C H) (rs : List (Route C H))
      → r.prefix ≡ w ++ b ∷ q
      → a < b
      → IsOrdered (r ∷ rs)
      → All (Beyond w) rs
      → hits n (r ∷ rs) (w ++ a ∷ s) ≡ []
  unfolding hits
  hits_above w q s a b n r [] eq lt o h = rw (miss_above w q s r.prefix a b eq lt)
  hits_above w q s a b n r (r' ∷ rs) eq lt o ((b', q', eq'), h) =
      let le : b ≤ b' = stays_before-le w q q' b b' (ap₂ stays_before (sym eq) (sym eq') ∙ o.0) in
      rw (miss_above w q s r.prefix a b eq lt)
        (hits_above w q' s a b' (suc n) r' rs eq' (omega arith) o.1 h)
