-- ===== src/Web/Bytecode/Walk.antt =====
-- web/bytecode_compiler.go: the routes that a trie holds for a path, read off the tree. `s` is the
-- part of the path behind the prefix that leads to the trie.
use goji.Prelude.{ℕ, Option, none, some, List, [], ◌∷◌, ◌++◌, length, take, drop, if◌then◌else◌}
use goji.Prelude.Bytes.{Bytes, has_prefix}
use goji.Web.Bytecode.Trie.{
  Trie, trie, Segments, no_segments, segments, TrieSegment, segment, Tries, no_tries, tries,
}

abbrev pub own_route : Option ℕ → List ℕ
own_route none = []
own_route (some k) = k ∷ []

unfoldable mutual
  pub walk_segments : Segments → Bytes → List ℕ
  walk_segments no_segments s = []
  walk_segments (segments ts rest) s = walk_segment ts s ++ walk_segments rest s

  pub walk_segment : TrieSegment → Bytes → List ℕ
  walk_segment (segment r ts) s = own_route r ++ walk_children ts s

  -- The first child whose prefix begins like the path is entered, and no other.
  pub walk_children : Tries → Bytes → List ℕ
  walk_children no_tries s = []
  walk_children (tries (trie p segs) ts) s =
      if has_prefix s (take 3 p)
      then (if has_prefix s p then walk_segments segs (drop (length p) s) else [])
      else walk_children ts s

unfoldable pub walk : Trie → Bytes → List ℕ
walk (trie p segs) s = walk_segments segs s
