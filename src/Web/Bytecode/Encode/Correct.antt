-- ===== src/Web/Bytecode/Encode/Correct.antt =====
-- web/bytecode_compiler.go and web/bytecode_runner.go: runs through an encoded trie, wherever it
-- stands in a machine.
use goji.Prelude.{
  ℕ, suc, ◌+◌, ◌≡◌, refl, ◌∙◌, ap, none, some, List, ◌++◌, map, length, drop, arith, length-append,
}
use mathlib.Core.List.{append_assoc}
use goji.Prelude.Bytes.{Bytes, has_prefix-drop}
use goji.Web.Route.{Request, Route}
use goji.Web.Bytecode.{StateMachine}
use goji.Web.Bytecode.Trie.{
  trie, Segments, no_segments, segments, TrieSegment, segment, Tries, no_tries, tries,
}
use goji.Web.Bytecode.Walk.{walk_segments, walk_segment, walk_children}
use goji.Web.Bytecode.Encode.{
  continuation, bump, resolve, main_length, assemble, encode, encode_segments, encode_segment,
  encode_children, main_part, sub_part,
}
use goji.Web.Bytecode.Encode.Relocate.{pairs_length, length-assemble}
use goji.Web.Bytecode.Encode.Chunks.{Leaves, Goes-stay, continuation-Compared}
use goji.Web.Bytecode.Encode.Layout.{Holds-map, Holds-assemble, Holds-segment}
use goji.Web.Bytecode.Runner.Instructions.{Holds, Holds-move}
use goji.Web.Bytecode.Encode.Leaves.{
  Leaves-trans, Leaves-weaken, Leaves-exit, Leaves-child, Leaves-cursor, Leaves-route,
}

module _ {C H : Type 0} (sm : StateMachine) (routes : List (Route C H)) (r : Request) where
  mutual
    unfolding encode_segments encode_segment encode_children encode walk_segments walk_segment
        walk_children pairs_length main_length

    children_correct :
        (ts : Tries) (dp pos u v y : ℕ) (w s : Bytes)
        → length w ≡ dp
        → w ++ s ≡ r.path
        → Holds sm u (map (bump v) (encode_children ts dp pos).0)
        → Holds sm (v + pos) (map (resolve y v) (encode_children ts dp pos).1)
        → u + length (encode_children ts dp pos).0 ≡ y
        → Leaves sm routes r
            (length (encode_children ts dp pos).0 + length (encode_children ts dp pos).1)
            u
            s
            (walk_children ts s)
            y
    children_correct no_tries dp pos u v y w s lw pw hm hs ey =
        (s, Goes-stay sm routes r 0 u y s (omega arith))
    children_correct (tries (trie p segs) ts) dp pos u v y w s lw pw hm hs ey =
        let cont = continuation p in
        let ps = encode_segments segs (dp + length p) in
        let sub = assemble (pos + length cont) ps in
        let rest = encode_children ts dp (pos + (length cont + length sub)) in
        let z = v + pos + length cont in
        let (h1, h23) =
          Holds-map sm (resolve y v) (v + pos) z (length cont) cont (sub ++ rest.1) hs refl refl in
        let (h2, h3) =
          Holds-map sm (resolve y v) z (z + length sub) (length sub) sub rest.1 h23 refl refl in
        let (bm, be, bs) = Holds-assemble sm y v (pos + length cont) z ps h2 in
        Leaves-child sm routes r (length cont) (length sub) (length rest.0 + length rest.1) _ u
          (pos + v) z y p s segs ts hm.0
          (continuation-Compared sm routes r p s (pos + v) z y v
            (Holds-move sm (v + pos) (pos + v) (map (resolve y v) cont) (omega arith) h1)
            (omega arith))
          (λ begins.
            Leaves-weaken sm routes r (pairs_length ps + 1) (length sub) z y _ _
              (Leaves-exit sm routes r (pairs_length ps) z (z + main_length ps) y _ _
                (segments_correct segs (dp + length p) y v (pos + length cont) (main_length ps) 0
                  (main_length ps + 1) 0 z (z + main_length ps + 1) (z + main_length ps) (w ++ p)
                  (drop (length p) s) (drop (length p) s) (omega (arith, length-append w p))
                  (append_assoc w p (drop (length p) s)
                    ∙ ap (◌++◌ w) (has_prefix-drop s p begins)
                    ∙ pw)
                  bm bs (omega arith) (omega arith) (omega arith) refl)
                be)
              (omega (arith, length-assemble (pos + length cont) ps)))
          (children_correct ts dp (pos + (length cont + length sub)) (u + 1) v y w s lw pw hm.1
            (Holds-move sm (z + length sub) _ (map (resolve y v) rest.1) (omega arith) h3)
            (omega arith))
          (omega (arith, length-append cont (sub ++ rest.1), length-append sub rest.1))

    segment_correct :
        (ts : TrieSegment) (dp u v y : ℕ) (w s q : Bytes)
        → length w ≡ dp
        → w ++ s ≡ r.path
        → Holds sm u (map (bump v) (encode_segment ts dp 0).0)
        → Holds sm v (map (resolve y v) (encode_segment ts dp 0).1)
        → u + length (encode_segment ts dp 0).0 ≡ y
        → Leaves sm routes r
            (length (encode_segment ts dp 0).0 + length (encode_segment ts dp 0).1)
            u
            q
            (walk_segment ts s)
            y
    segment_correct (segment none ts) dp u v y w s q lw pw hm hs ey =
        Leaves-cursor sm routes r _ _ dp u y w s q _ lw pw hm.0
          (children_correct ts dp 0 (u + 1) v y w s lw pw hm.1
            (Holds-move sm v (v + 0) _ (omega arith) hs) (omega arith))
          (omega arith)
    segment_correct (segment (some k) ts) dp u v y w s q lw pw hm hs ey =
        let b = length (encode_children ts dp 0).0 + length (encode_children ts dp 0).1 in
        Leaves-cursor sm routes r (suc b) _ dp u y w s q _ lw pw hm.0
          (Leaves-route sm routes r b (suc b) k (u + 1) y s _ hm.1.0
            (children_correct ts dp 0 (u + 1 + 1) v y w s lw pw hm.1.1
              (Holds-move sm v (v + 0) _ (omega arith) hs) (omega arith))
            (omega arith))
          (omega arith)

    pub segments_correct :
        (segs : Segments) (dp x k off msl subl mlen pos u v z : ℕ) (w s q : Bytes)
        → length w ≡ dp
        → w ++ s ≡ r.path
        → Holds sm u (map (resolve x k) (main_part off msl subl (encode_segments segs dp)))
        → Holds sm v (map (resolve x k) (sub_part off mlen pos (encode_segments segs dp)))
        → off + pos + k ≡ u
        → off + mlen + k ≡ v
        → msl + subl + 1 ≡ mlen
        → u + main_length (encode_segments segs dp) ≡ z
        → Leaves sm routes r (pairs_length (encode_segments segs dp)) u q (walk_segments segs s) z
    segments_correct no_segments dp x k off msl subl mlen pos u v z w s q lw pw hm hs eu ev el ez =
        (q, Goes-stay sm routes r 0 u z q (omega arith))
    segments_correct (segments ts segs) dp x k off msl subl mlen pos u v z w s q lw pw hm hs eu ev
          el ez =
        let e = encode_segment ts dp 0 in
        let ps = encode_segments segs dp in
        let y = u + length e.0 in
        let (a1, a2, a3, a4) =
          Holds-segment sm x k off msl subl mlen pos u v y e.0 e.1 ps hm hs eu ev el refl in
        Leaves-trans sm routes r (length e.0 + length e.1) (pairs_length ps) _ u y z q _ _
          (segment_correct ts dp u v y w s q lw pw a1 a2 refl)
          (λ q'.
            segments_correct segs dp x k off msl (subl + length e.1) (mlen + length e.1)
              (pos + length e.0) y (v + length e.1) z w s q' lw pw a3 a4 (omega arith) (omega arith)
              (omega arith) (omega arith))
          (omega arith)
