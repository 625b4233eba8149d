-- ===== src/Web/Bytecode/Trie/Group.antt =====
-- web/bytecode_compiler.go: `buildTrieSegment` against the plausible routes of a segment.
use goji.Prelude.{
  ℕ, ◌+◌, ◌≤◌, ◌<◌, ◌≡◌, ◌≢◌, refl, sym, ◌∙◌, ap, ap₂, subst, true, List, [], ◌∷◌, ◌++◌, length,
  take, drop, arith, Bool-cases, ◌⊎◌, inl, inr, All, All-append, All-left, All-right, All-map,
  length-append, drop-append,
}
use mathlib.Core.List.{append_assoc, append-nil}
use goji.Prelude.Bytes.{Bytes, has_prefix, has_prefix-drop, has_prefix-take-false, has_prefix-split}
use goji.Web.Route.{Route, stays_before}
use goji.Web.Bytecode.Trie.{
  Trie, Tries, no_tries, tries, with_prefix, group_loop, build_trie_segment,
}
use goji.Web.Bytecode.Walk.{walk, walk_children}
use goji.Web.Bytecode.Trie.Hits.{
  IsOrdered, Under, Beyond, hits, hits-append, hits-none, hits_above, stays_before-le,
  IsOrdered-left, IsOrdered-right,
}
use goji.Web.Bytecode.Trie.Prefixes.{
  walk_children-with_prefix, common_prefix-cases, common_prefix-left, common_prefix-right, nil_walk,
  lt_of_le_ne,
}

module _ {C H : Type 0} where
  abbrev pub Fits : ℕ → Route C H → Type 0
  Fits n r = length r.prefix < n

  -- `build` makes, of routes with prefixes below `f` bytes behind the depth, a trie that holds the
  -- plausible ones.
  abbrev pub Builds : ℕ → (List (Route C H) → ℕ → ℕ → Trie) → Type 0
  Builds f build =
      (g : List (Route C H)) (dp dr : ℕ) (w s : Bytes)
      → length w ≡ dp
      → All (Under w) g
      → IsOrdered g
      → All (Fits (f + dp)) g
      → walk (build g dp dr) s ≡ hits dr g (w ++ s)

  Under-shorter :
      (w p p' q : Bytes) (r : Route C H) → p ≡ p' ++ q → Under (w ++ p) r → Under (w ++ p') r
  Under-shorter w p p' q r e (t, eq) = (
    q ++ t,
    eq
        ∙ append_assoc w p t
        ∙ ap (◌++◌ w) (ap (λ l. l ++ t) e ∙ append_assoc p' q t)
        ∙ sym (append_assoc w p' (q ++ t)),
  )

  -- The last of a group goes on with the group's byte, so what follows it goes on with no smaller.
  group-le :
      (w p q : Bytes) (a b : ℕ) (x r : Route C H) (xs rs : List (Route C H))
      → All (Under (w ++ a ∷ p)) (x ∷ xs)
      → IsOrdered ((x ∷ xs) ++ r ∷ rs)
      → r.prefix ≡ w ++ b ∷ q
      → a ≤ b
  group-le w p q a b x r [] rs ((t, eq), _) o e =
      stays_before-le w (p ++ t) q a b
        (ap₂ stays_before (sym (append_assoc w (a ∷ p) t) ∙ sym eq) (sym e) ∙ o.0)
  group-le w p q a b x r (x' ∷ xs) rs (_, h) o e = group-le w p q a b x' r xs rs h o.1 e

  module _ (f : ℕ) (build : List (Route C H) → ℕ → ℕ → Trie) (built : Builds f build) where
    -- The trie of one group: it is entered and holds the group's plausible routes, or there are
    -- none and the next child is looked at.
    abbrev Group : ℕ → Bytes → Bytes → Bytes → List (Route C H) → ℕ → Tries → Type 0
    Group dp p w s g dr ts =
        ((has_prefix s (take 3 p) ≡ true)
          × (walk_children (tries (with_prefix p (build g (dp + length p) dr)) ts) s
              ≡ hits dr g (w ++ s)))
        ⊎ ((walk_children (tries (with_prefix p (build g (dp + length p) dr)) ts) s
              ≡ walk_children ts s)
            × (hits dr g (w ++ s) ≡ []))

    group_lem :
        (dp dr a : ℕ) (p w s : Bytes) (g : List (Route C H)) (ts : Tries)
        → length w ≡ dp
        → All (Under (w ++ a ∷ p)) g
        → IsOrdered g
        → All (Fits (f + (dp + 1))) g
        → Group dp (a ∷ p) w s g dr ts
    group_lem dp dr a p w s g ts lw u o h =
        let walked = walk_children-with_prefix (a ∷ p) s (build g (dp + length (a ∷ p)) dr) ts in
        elim (Bool-cases (has_prefix s (take 3 (a ∷ p)))) [
          | inl near ↦ elim (Bool-cases (has_prefix s (a ∷ p))) [
            | inl begins ↦
                let wider =
                  All-map {P = Fits (f + (dp + 1))} {Q = Fits (f + (dp + length (a ∷ p)))}
                    (λ r (lt : length r.prefix < f + (dp + 1)). omega arith) g h in
                inl (
                  near,
                  walked
                      ∙ rw (near, begins)
                          (built g (dp + length (a ∷ p)) dr (w ++ a ∷ p) (drop (length (a ∷ p)) s)
                              (omega (arith, length-append w (a ∷ p))) u o wider
                            ∙ ap (hits dr g) (
                                append_assoc w (a ∷ p) (drop (length (a ∷ p)) s)
                                ∙ ap (◌++◌ w) (has_prefix-drop s (a ∷ p) begins))),
                )
            | inr not_begins ↦ inl (
              near,
              walked ∙ rw (near, not_begins) (sym (hits-none w (a ∷ p) s dr g u not_begins)),
            )
          ]
          | inr far ↦
              inr (
                walked ∙ rw far,
                hits-none w (a ∷ p) s dr g u (has_prefix-take-false s (a ∷ p) far),
              )
        ]

    -- A group that ends in front of `rs`, whose trie is followed by that of `rs`.
    Group-split :
        (dp dr start a b : ℕ) (p q w s : Bytes) (x r : Route C H) (xs rs : List (Route C H))
        (ts : Tries)
        → Group dp (a ∷ p) w s (x ∷ xs) (dr + start) ts
        → All (Under (w ++ a ∷ p)) (x ∷ xs)
        → IsOrdered ((x ∷ xs) ++ r ∷ rs)
        → r.prefix ≡ w ++ b ∷ q
        → All (Beyond w) rs
        → a ≢ b
        → walk_children ts s ≡ hits (dr + (start + length (x ∷ xs))) (r ∷ rs) (w ++ s)
        → walk_children
            (tries (with_prefix (a ∷ p) (build (x ∷ xs) (dp + length (a ∷ p)) (dr + start))) ts)
            s
          ≡ hits (dr + start) ((x ∷ xs) ++ r ∷ rs) (w ++ s)
    Group-split dp dr start a b p q w s x r xs rs ts (inl (near, e)) u o eq beyond ne rest =
        let (s', es) = has_prefix-split s (take 3 (a ∷ p)) near in
        let none_left : hits (dr + (start + length (x ∷ xs))) (r ∷ rs) (w ++ s) ≡ [] =
          ap (λ t. hits (dr + (start + length (x ∷ xs))) (r ∷ rs) (w ++ t)) es
          ∙ hits_above w q (take 2 p ++ s') a b _ r rs eq
              (lt_of_le_ne a b (group-le w p q a b x r xs rs u o eq) ne)
              (IsOrdered-right (x ∷ xs) (r ∷ rs) o) beyond in
        e
        ∙ sym (append-nil _)
        ∙ ap (◌++◌ (hits (dr + start) (x ∷ xs) (w ++ s))) (sym none_left)
        ∙ sym (
            hits-append (dr + start) (dr + (start + length (x ∷ xs))) (x ∷ xs) (r ∷ rs) (w ++ s)
              (omega arith))
    Group-split dp dr start a b p q w s x r xs rs ts (inr (e, nothing)) u o eq beyond ne rest =
        e
        ∙ rest
        ∙ sym (ap (λ l. l ++ hits (dr + (start + length (x ∷ xs))) (r ∷ rs) (w ++ s)) nothing)
        ∙ sym (
            hits-append (dr + start) (dr + (start + length (x ∷ xs))) (x ∷ xs) (r ∷ rs) (w ++ s)
              (omega arith))

    pub group_loop_correct :
        (rs : List (Route C H)) (dp dr start a : ℕ) (p w s : Bytes) (x : Route C H)
        (xs : List (Route C H))
        → length w ≡ dp
        → All (Under (w ++ a ∷ p)) (x ∷ xs)
        → All (Beyond w) rs
        → IsOrdered ((x ∷ xs) ++ rs)
        → All (Fits (f + (dp + 1))) ((x ∷ xs) ++ rs)
        → walk_children (group_loop build dp dr (x ∷ xs) start (a ∷ p) rs) s
          ≡ hits (dr + start) ((x ∷ xs) ++ rs) (w ++ s)
    unfolding group_loop
    group_loop_correct [] dp dr start a p w s x xs lw u beyond o h =
        let e = append-nil (x ∷ xs) in
        elim (group_lem dp (dr + start) a p w s (x ∷ xs) no_tries lw u (subst IsOrdered e o)
          (subst (All (Fits (f + (dp + 1)))) e h)) [
            | inl (near, walked) ↦ walked ∙ ap (λ l. hits (dr + start) l (w ++ s)) (sym e)
            | inr (walked, nothing) ↦
                walked ∙ nil_walk s ∙ sym nothing ∙ ap (λ l. hits (dr + start) l (w ++ s)) (sym e)
          ]
    group_loop_correct (r ∷ rs) dp dr start a p w s x xs lw u ((b, q, eq), beyond) o h =
        let ip : drop dp r.prefix ≡ b ∷ q =
          ap (λ n. drop n r.prefix) (sym lw) ∙ ap (drop (length w)) eq ∙ drop-append w (b ∷ q) in
        elim (common_prefix-cases p q a b) [
          | inl (split, ne) ↦
              rw (ip, split)
                (Group-split dp dr start a b p q w s x r xs rs _
                  (group_lem dp (dr + start) a p w s (x ∷ xs) _ lw u
                    (IsOrdered-left (x ∷ xs) (r ∷ rs) o)
                    (All-left (Fits (f + (dp + 1))) (x ∷ xs) (r ∷ rs) h))
                  u o eq beyond ne
                  (group_loop_correct rs dp dr (start + length (x ∷ xs)) b q w s r [] lw
                    (([], eq ∙ sym (append-nil _)), tt) beyond (IsOrdered-right (x ∷ xs) (r ∷ rs) o)
                    (All-right (Fits (f + (dp + 1))) (x ∷ xs) (r ∷ rs) h)))
          | inr (joined, (c, ec)) ↦
              let (t, et) = common_prefix-left (a ∷ p) (b ∷ q) in
              let (t', et') = common_prefix-right (a ∷ p) (b ∷ q) in
              let under_all =
                All-map
                  (λ r' un. Under-shorter w (a ∷ p) (a ∷ c) t r' (et ∙ ap (λ l. l ++ t) ec) un)
                  (x ∷ xs) u in
              let under_r : Under (w ++ a ∷ c) r = (
                t',
                eq ∙ ap (◌++◌ w) (et' ∙ ap (λ l. l ++ t') ec) ∙ sym (append_assoc w (a ∷ c) t'),
              ) in
              rw (ip, joined, ec)
                (subst
                  (λ l.
                    walk_children (group_loop build dp dr (x ∷ (xs ++ r ∷ [])) start (a ∷ c) rs) s
                    ≡ hits (dr + start) l (w ++ s))
                  (append_assoc (x ∷ xs) (r ∷ []) rs)
                  (group_loop_correct rs dp dr start a c w s x (xs ++ r ∷ []) lw
                    (All-append (Under (w ++ a ∷ c)) (x ∷ xs) (r ∷ []) under_all (under_r, tt))
                    beyond (subst IsOrdered (sym (append_assoc (x ∷ xs) (r ∷ []) rs)) o)
                    (subst (All (Fits (f + (dp + 1)))) (sym (append_assoc (x ∷ xs) (r ∷ []) rs))
                      h)))
        ]

    -- The children of a segment.
    pub build_trie_segment_correct :
        (rs : List (Route C H)) (dp dr : ℕ) (w s : Bytes)
        → length w ≡ dp
        → All (Beyond w) rs
        → IsOrdered rs
        → All (Fits (f + (dp + 1))) rs
        → walk_children (build_trie_segment build rs dp dr) s ≡ hits dr rs (w ++ s)
    unfolding build_trie_segment walk_children hits
    build_trie_segment_correct [] dp dr w s lw beyond o h = refl
    build_trie_segment_correct (r ∷ rs) dp dr w s lw ((b, q, eq), beyond) o h =
        let ip : drop dp r.prefix ≡ b ∷ q =
          ap (λ n. drop n r.prefix) (sym lw) ∙ ap (drop (length w)) eq ∙ drop-append w (b ∷ q) in
        let start_zero : dr + 0 ≡ dr = omega arith in
        rw ip (
          group_loop_correct rs dp dr 0 b q w s r [] lw (([], eq ∙ sym (append-nil _)), tt) beyond o
            h
          ∙ ap (λ n. hits n (r ∷ rs) (w ++ s)) start_zero)
