-- ===== src/Web/Bytecode/Trie/Build.antt =====
-- web/bytecode_compiler.go: `buildTrie` against the plausible routes of a list.
use goji.Prelude.{
  ℕ, zero, suc, ◌+◌, ◌<◌, ◌≡◌, ◌≢◌, refl, sym, ◌∙◌, ap, ap₂, subst, true, false, Option, none, some,
  List, [], ◌∷◌, ◌++◌, length, ◌==◌, ==_iff, arith, Bool-cases, inl, inr, All, All-append, All-left,
  All-right, All-map, length-append,
}
use mathlib.Core.List.{append_assoc, append-nil}
use goji.Prelude.Bytes.{Bytes, has_prefix, has_prefix-append}
use goji.Web.Route.{Route}
use goji.Web.Bytecode.Trie.{
  Trie, trie, Segments, no_segments, segments, segment, Tries, after_route, add_base, trie_loop,
  build_trie_segment, build_trie,
}
use goji.Web.Bytecode.Walk.{own_route, walk, walk_segments, walk_children}
use goji.Web.Bytecode.Trie.Hits.{
  IsOrdered, Under, Beyond, hits, hits-append, IsOrdered-left, IsOrdered-right,
}
use goji.Web.Bytecode.Trie.Group.{Fits, Builds, build_trie_segment_correct}

-- `t.children[i].route += dr` where it is not -1.
abbrev moved_route : ℕ → Option ℕ → Option ℕ
moved_route dr none = none
moved_route dr (some k) = some (k + dr)

walk-add_base :
    (dr : ℕ) (cur : Option ℕ) (ts : Tries) (segs : Segments) (s : Bytes)
    → walk_segments (add_base dr (segments (segment cur ts) segs)) s
      ≡ own_route (moved_route dr cur) ++ (walk_children ts s ++ walk_segments (add_base dr segs) s)
unfolding walk_segments add_base
walk-add_base dr none ts segs s = refl
walk-add_base dr (some k) ts segs s = refl

walk-add_base_nil : (dr : ℕ) (s : Bytes) → walk_segments (add_base dr no_segments) s ≡ []
unfolding walk_segments add_base
walk-add_base_nil dr s = refl

walk_none : (s : Bytes) → walk_segments no_segments s ≡ []
unfolding walk_segments
walk_none s = refl

hits_nil : (C H : Type 0) (n : ℕ) (path : Bytes) → hits {C = C} {H = H} n [] path ≡ []
unfolding hits
hits_nil C H n path = refl

pub walk_trie : (p s : Bytes) (segs : Segments) → walk (trie p segs) s ≡ walk_segments segs s
unfolding walk
walk_trie p s segs = refl

ne_test : (a b : ℕ) → a ≢ b → (a == b) ≡ false
ne_test a b h = ground arith

module _ {C H : Type 0} where
  -- A route whose prefix ends where the trie begins is always plausible there.
  hits_here :
      (n n' : ℕ) (w s : Bytes) (r : Route C H) (rs : List (Route C H))
      → r.prefix ≡ w
      → n ≡ n'
      → hits n (r ∷ rs) (w ++ s) ≡ n' ∷ hits (suc n') rs (w ++ s)
  unfolding hits
  hits_here n n' w s r rs e en = rw (ap (has_prefix (w ++ s)) e ∙ has_prefix-append w s, en)

  hits_resume :
      (dr i n : ℕ) (w s : Bytes) (r : Route C H) (rs : List (Route C H))
      → r.prefix ≡ w
      → n ≡ dr + i
      → own_route (moved_route dr (some i)) ++ hits (dr + after_route (some i)) rs (w ++ s)
        ≡ hits n (r ∷ rs) (w ++ s)
  hits_resume dr i n w s r rs e en =
      ap (λ m. (i + dr) ∷ hits m rs (w ++ s)) (omega arith)
      ∙ sym (hits_here n (i + dr) w s r rs e (omega arith))

  start_empty :
      (cur : Option ℕ) (sub : List (Route C H))
      → after_route cur + length sub ≡ 0
      → (cur ≡ none) × (sub ≡ [])
  start_empty none [] e = (refl, refl)
  start_empty none (r ∷ sub) e = absurd (omega arith)
  start_empty (some k) sub e = absurd (omega arith)

  module _ (f : ℕ) (build : List (Route C H) → ℕ → ℕ → Trie) (built : Builds f build) where
    -- A segment that ends in front of `rs`.
    close_correct :
        (dp dr : ℕ) (cur : Option ℕ) (sub rs : List (Route C H)) (w s : Bytes) (segs : Segments)
        → length w ≡ dp
        → All (Beyond w) sub
        → IsOrdered (sub ++ rs)
        → All (Fits (f + (dp + 1))) (sub ++ rs)
        → walk_segments (add_base dr segs) s ≡ hits (dr + after_route cur + length sub) rs (w ++ s)
        → walk_segments
            (add_base dr (
              segments (segment cur (build_trie_segment build sub dp (dr + after_route cur))) segs))
            s
          ≡ own_route (moved_route dr cur) ++ hits (dr + after_route cur) (sub ++ rs) (w ++ s)
    close_correct dp dr cur sub rs w s segs lw beyond o h rest =
        walk-add_base dr cur (build_trie_segment build sub dp (dr + after_route cur)) segs s
        ∙ ap (◌++◌ (own_route (moved_route dr cur))) (
            ap₂ ◌++◌
              (build_trie_segment_correct f build built sub dp (dr + after_route cur) w s lw beyond
                (IsOrdered-left sub rs o) (All-left (Fits (f + (dp + 1))) sub rs h))
              rest
            ∙ sym (
                hits-append (dr + after_route cur) (dr + after_route cur + length sub) sub rs
                  (w ++ s) refl))

    trie_loop_correct :
        (rs : List (Route C H)) (dp dr : ℕ) (cur : Option ℕ) (sub : List (Route C H)) (i : ℕ)
        (w s : Bytes)
        → length w ≡ dp
        → All (Beyond w) sub
        → All (Under w) rs
        → IsOrdered (sub ++ rs)
        → All (Fits (f + (dp + 1))) (sub ++ rs)
        → after_route cur + length sub ≡ i
        → walk_segments (add_base dr (trie_loop build dp dr cur sub i rs)) s
          ≡ own_route (moved_route dr cur) ++ hits (dr + after_route cur) (sub ++ rs) (w ++ s)
    unfolding trie_loop
    trie_loop_correct [] dp dr cur sub i w s lw beyond u o h ei =
        close_correct dp dr cur sub [] w s no_segments lw beyond o h
          (walk-add_base_nil dr s ∙ sym (hits_nil C H _ _))
    trie_loop_correct (r ∷ rs) dp dr cur sub i w s lw beyond (([], eq), u) o h ei =
        let e : r.prefix ≡ w = eq ∙ append-nil w in
        let ends : (length r.prefix == dp) ≡ true =
          (==_iff (length r.prefix) dp).1 (ap length e ∙ lw) in
        let next =
          trie_loop_correct rs dp dr (some i) [] (i + 1) w s lw tt u
            (IsOrdered-right sub (r ∷ rs) o).1 (All-right (Fits (f + (dp + 1))) sub (r ∷ rs) h).1
            (omega arith) in
        elim (Bool-cases (i == 0)) [
          | inl first ↦
              let zero_i : i ≡ 0 = (==_iff i 0).0 first in
              let (no_cur, no_sub) = start_empty cur sub (ei ∙ zero_i) in
              rw (ends, first, no_cur, no_sub)
                (ap
                    (λ k.
                      walk_segments (add_base dr (trie_loop build dp dr (some k) [] (i + 1) rs)) s)
                    (sym zero_i)
                  ∙ next
                  ∙ hits_resume dr i (dr + 0) w s r rs e (omega arith))
          | inr later ↦
              rw (ends, later)
                (close_correct dp dr cur sub (r ∷ rs) w s _ lw beyond o h (
                  next
                  ∙ hits_resume dr i (dr + after_route cur + length sub) w s r rs e (omega arith)))
        ]
    trie_loop_correct (r ∷ rs) dp dr cur sub i w s lw beyond ((b ∷ q, eq), u) o h ei =
        let goes_on : (length r.prefix == dp) ≡ false =
          ne_test (length r.prefix) dp (omega (arith, ap length eq, length-append w (b ∷ q))) in
        rw goes_on (
          subst
            (λ l.
              walk_segments (add_base dr (trie_loop build dp dr cur (sub ++ r ∷ []) (i + 1) rs)) s
              ≡ own_route (moved_route dr cur) ++ hits (dr + after_route cur) l (w ++ s))
            (append_assoc sub (r ∷ []) rs)
            (trie_loop_correct rs dp dr cur (sub ++ r ∷ []) (i + 1) w s lw
              (All-append (Beyond w) sub (r ∷ []) beyond ((b, q, eq), tt)) u
              (subst IsOrdered (sym (append_assoc sub (r ∷ []) rs)) o)
              (subst (All (Fits (f + (dp + 1)))) (sym (append_assoc sub (r ∷ []) rs)) h)
              (omega (arith, length-append sub (r ∷ [])))))

  Fits-none :
      (dp n : ℕ) (w s : Bytes) (g : List (Route C H))
      → length w ≡ dp
      → All (Under w) g
      → All (Fits dp) g
      → hits n g (w ++ s) ≡ []
  unfolding hits
  Fits-none dp n w s [] lw u h = refl
  Fits-none dp n w s (r ∷ g) lw ((q, eq), u) (h, hs) =
      absurd (omega (arith, ap length eq, length-append w q))

  -- With fuel for the longest prefix `build_trie` builds what it should.
  pub build_trie-Builds : (f : ℕ) → Builds f (build_trie {C = C} {H = H} f)
  unfolding build_trie
  build_trie-Builds zero g dp dr w s lw u o h =
      walk_trie [] s no_segments
      ∙ walk_none s
      ∙ sym (
          Fits-none dp dr w s g lw u
            (All-map (λ r (lt : length r.prefix < 0 + dp). omega arith) g h))
  build_trie-Builds (suc f) g dp dr w s lw u o h =
      let e : dr + 0 ≡ dr = omega arith in
      walk_trie [] s _
      ∙ trie_loop_correct f (build_trie f) (build_trie-Builds f) g dp dr none [] 0 w s lw tt u o
          (All-map (λ r (lt : length r.prefix < suc f + dp). omega arith) g h) (omega arith)
      ∙ ap (λ n. hits n g (w ++ s)) e
