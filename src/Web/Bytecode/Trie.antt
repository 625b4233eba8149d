-- ===== src/Web/Bytecode/Trie.antt =====
-- web/bytecode_compiler.go: `trie`, `trieSegment` and the functions that build them from routes.
pub mod Hits
pub mod Prefixes
pub mod Group
pub mod Build
use goji.Prelude.{
  ℕ, zero, suc, ◌+◌, Option, none, some, List, [], ◌∷◌, ◌++◌, length, drop, ◌==◌, if◌then◌else◌,
}
use goji.Prelude.Bytes.{Bytes}
use goji.Web.Route.{Route}

mutual
  pub data Trie : Type 0 where
    trie : Bytes → Segments → Trie

  -- `[]trieSegment`
  pub data Segments : Type 0 where
    no_segments : Segments
    segments : TrieSegment → Segments → Segments

  -- The route is an index, or `none` for -1.
  pub data TrieSegment : Type 0 where
    segment : Option ℕ → Tries → TrieSegment

  -- `[]trie`
  pub data Tries : Type 0 where
    no_tries : Tries
    tries : Trie → Tries → Tries

-- `t.prefix = p`
abbrev pub with_prefix : Bytes → Trie → Trie
with_prefix p (trie _ segs) = trie p segs

-- `ts.route+1`
abbrev pub after_route : Option ℕ → ℕ
after_route none = 0
after_route (some k) = suc k

-- The last loop of `buildTrie`.
unfoldable pub add_base : ℕ → Segments → Segments
add_base dr no_segments = no_segments
add_base dr (segments (segment none ts) rest) = segments (segment none ts) (add_base dr rest)
add_base dr (segments (segment (some k) ts) rest) =
    segments (segment (some (k + dr)) ts) (add_base dr rest)

-- The bytes that two strings begin with alike.
unfoldable pub common_prefix : Bytes → Bytes → Bytes
common_prefix [] t = []
common_prefix (a ∷ s) [] = []
common_prefix (a ∷ s) (b ∷ t) = if a == b then a ∷ common_prefix s t else []

module _ {C H : Type 0} where
  module _ (build : List (Route C H) → ℕ → ℕ → Trie) where
    -- The loop of `buildTrieSegment`: `group` is `routes[start:i]`, and the list holds `routes[i:]`.
    pub group_loop : ℕ → ℕ → List (Route C H) → ℕ → Bytes → List (Route C H) → Tries
    group_loop dp dr group start p [] =
        tries (with_prefix p (build group (dp + length p) (dr + start))) no_tries
    group_loop dp dr group start p (r ∷ rs) =
        let ip = drop dp r.prefix in
        let split =
          tries (with_prefix p (build group (dp + length p) (dr + start)))
            (group_loop dp dr (r ∷ []) (start + length group) ip rs) in
        let joined = group_loop dp dr (group ++ r ∷ []) start (common_prefix p ip) rs in
        if length (common_prefix p ip) == 0 then split else joined

    pub build_trie_segment : List (Route C H) → ℕ → ℕ → Tries
    build_trie_segment [] dp dr = no_tries
    build_trie_segment (r ∷ rs) dp dr = group_loop dp dr (r ∷ []) 0 (drop dp r.prefix) rs

    -- The first loop of `buildTrie` and what follows it: `ts.route` is `cur`, `sub` is
    -- `routes[ts.route+1:i]`, and the list holds `routes[i:]`.
    pub trie_loop : ℕ → ℕ → Option ℕ → List (Route C H) → ℕ → List (Route C H) → Segments
    trie_loop dp dr cur sub i [] =
        segments (segment cur (build_trie_segment sub dp (dr + after_route cur))) no_segments
    trie_loop dp dr cur sub i (r ∷ rs) =
        let skip = trie_loop dp dr cur (sub ++ r ∷ []) (i + 1) rs in
        let first = trie_loop dp dr (some 0) [] (i + 1) rs in
        let close =
          segments (segment cur (build_trie_segment sub dp (dr + after_route cur)))
            (trie_loop dp dr (some i) [] (i + 1) rs) in
        if length r.prefix == dp then if i == 0 then first else close else skip

  -- `buildTrie` and `buildTrieSegment` call each other at a growing depth `dp`; the fuel bounds the
  -- nesting of the calls.
  unfoldable pub build_trie : ℕ → List (Route C H) → ℕ → ℕ → Trie
  unfolding trie_loop build_trie_segment group_loop add_base common_prefix
  build_trie zero routes dp dr = trie [] no_segments
  build_trie (suc f) routes dp dr =
      trie [] (add_base dr (trie_loop (build_trie f) dp dr none [] 0 routes))
