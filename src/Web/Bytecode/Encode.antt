-- ===== src/Web/Bytecode/Encode.antt =====
-- web/bytecode_compiler.go: the encoding of a trie as a state machine.
pub mod Relocate
pub mod Chunks
pub mod Layout
pub mod Leaves
pub mod Correct
pub mod Placed
pub mod Machine
use goji.Prelude.{
  ℕ, zero, suc, max, ◌+◌, Bool, true, false, Option, none, some, List, [], ◌∷◌, ◌++◌, map, length,
  if◌then◌else◌,
}
use goji.Prelude.Bytes.{Bytes}
use goji.Web.Route.{Route}
use goji.Web.Bytecode.{Mode, Index, at, minus_one, Chunk, State, StateMachine, plus, holds_value}
use goji.Web.Bytecode.Trie.{
  Trie, trie, Segments, no_segments, segments, TrieSegment, segment, Tries, no_tries, tries,
  build_trie,
}

-- `copy(bs[:], p)` into a zeroed array: the array, and the number of bytes copied.
abbrev pub copy_chunk : Bytes → Chunk
copy_chunk [] = record { b0 = 0; b1 = 0; b2 = 0 }
copy_chunk (a ∷ []) = record { b0 = a; b1 = 0; b2 = 0 }
copy_chunk (a ∷ b ∷ []) = record { b0 = a; b1 = b; b2 = 0 }
copy_chunk (a ∷ b ∷ c ∷ _) = record { b0 = a; b1 = b; b2 = c }

abbrev pub copied : Bytes → ℕ
copied [] = 0
copied (a ∷ []) = 1
copied (a ∷ b ∷ []) = 2
copied (a ∷ b ∷ c ∷ _) = 3

abbrev pub set_cursor_state : ℕ → State
set_cursor_state dp = record {
  mode = record {
    length_mask = 0;
    jump_on_match = false;
    route = false;
    set_cursor = true;
    fail = false;
  };
  bs = copy_chunk [];
  i = at dp;
}

abbrev pub route_state : ℕ → State
route_state k = record {
  mode = record {
    length_mask = 0;
    jump_on_match = false;
    route = true;
    set_cursor = false;
    fail = false;
  };
  bs = copy_chunk [];
  i = at k;
}

-- The entry of a child: `smMode(bc) | smJumpOnMatch`.
abbrev pub child_state : Bytes → Index → State
child_state p j = record {
  mode = record {
    length_mask = copied p;
    jump_on_match = true;
    route = false;
    set_cursor = false;
    fail = false;
  };
  bs = copy_chunk p;
  i = j;
}

-- A later chunk of a child's prefix: `smMode(bc)`, and -1 on a mismatch.
abbrev pub chunk_state : Bytes → State
chunk_state p = record {
  mode = record {
    length_mask = copied p;
    jump_on_match = false;
    route = false;
    set_cursor = false;
    fail = false;
  };
  bs = copy_chunk p;
  i = minus_one;
}

-- `state{mode: smJumpOnMatch, i: -1}`
abbrev pub exit_state : Index → State
exit_state j = child_state [] j

-- `for len(p) > bc`: the states of the prefix behind its first chunk.
unfoldable pub continuation : Bytes → StateMachine
continuation (a ∷ b ∷ c ∷ d ∷ p) = chunk_state (d ∷ p) ∷ continuation (d ∷ p)
continuation _ = []

-- The two assignments that move a state to its place in the trie's machine.
abbrev pub bump : ℕ → State → State
bump k s = if holds_value s then s else record s { i = plus s.i k }

abbrev resolve_index : ℕ → ℕ → Index → Index
resolve_index x k (at n) = at (n + k)
resolve_index x k minus_one = at x

abbrev pub resolve : ℕ → ℕ → State → State
resolve x k s = if holds_value s then s else record s { i = resolve_index x k s.i }

-- The sum of the lengths of the first parts, `msl` after the first loop of `trie.encode`.
unfoldable pub main_length : List (StateMachine × StateMachine) → ℕ
main_length [] = 0
main_length ((m, s) ∷ rest) = length m + main_length rest

-- The second loop of `trie.encode`.
unfoldable pub main_part : ℕ → ℕ → ℕ → List (StateMachine × StateMachine) → StateMachine
main_part off msl subl [] = []
main_part off msl subl ((m, s) ∷ rest) =
    map (bump (off + msl + subl + 1)) m ++ main_part off msl (subl + length s) rest

-- The third loop: `mlen` is `len(m)` and `msl` counts again from 0.
unfoldable pub sub_part : ℕ → ℕ → ℕ → List (StateMachine × StateMachine) → StateMachine
sub_part off mlen msl [] = []
sub_part off mlen msl ((m, s) ∷ rest) =
    map (resolve (off + (msl + length m)) (off + mlen)) s
    ++ sub_part off (mlen + length s) (msl + length m) rest

-- Both loops, and the exit state between them.
unfoldable pub assemble : ℕ → List (StateMachine × StateMachine) → StateMachine
unfolding main_length main_part sub_part
assemble off pairs =
    let msl = main_length pairs in
    main_part off msl 0 pairs ++ exit_state minus_one ∷ sub_part off (msl + 1) 0 pairs

unfoldable mutual
  -- `trie.encode`
  pub encode : Trie → ℕ → ℕ → StateMachine
  encode (trie p segs) dp off = assemble off (encode_segments segs dp)

  -- The first loop of `trie.encode`.
  pub encode_segments : Segments → ℕ → List (StateMachine × StateMachine)
  encode_segments no_segments dp = []
  encode_segments (segments ts rest) dp = encode_segment ts dp 0 ∷ encode_segments rest dp

  -- `trieSegment.encode`
  pub encode_segment : TrieSegment → ℕ → ℕ → StateMachine × StateMachine
  encode_segment (segment none children) dp off =
      let r = encode_children children dp off in (set_cursor_state dp ∷ r.0, r.1)
  encode_segment (segment (some k) children) dp off =
      let r = encode_children children dp off in (set_cursor_state dp ∷ route_state k ∷ r.0, r.1)

  -- Its loop; `pos` is `off + len(sub)`.
  pub encode_children : Tries → ℕ → ℕ → StateMachine × StateMachine
  encode_children no_tries dp pos = ([], [])
  encode_children (tries (trie p segs) ts) dp pos =
      let cont = continuation p in
      let sub = encode (trie p segs) (dp + length p) (pos + length cont) in
      let r = encode_children ts dp (pos + (length cont + length sub)) in
      (child_state p (at pos) ∷ r.0, cont ++ (sub ++ r.1))

-- The last loop of `compile`: a state whose index is still -1 fails.
abbrev pub mark_fail : State → State
mark_fail s = elim s.i [ at n ↦ s | minus_one ↦ record s { mode = record s.mode { fail = true } } ]

-- Enough fuel for `build_trie`: more than the longest prefix.
unfoldable pub depth_bound : {C H : Type 0} → List (Route C H) → ℕ
depth_bound [] = 1
depth_bound (r ∷ rs) = max (length r.prefix + 1) (depth_bound rs)

module _ {C H : Type 0} where
  unfoldable pub compile : List (Route C H) → StateMachine
  unfolding depth_bound encode assemble continuation build_trie
  compile [] = []
  compile (r ∷ rs) = map mark_fail (encode (build_trie (depth_bound (r ∷ rs)) (r ∷ rs) 0 0) 0 0)
