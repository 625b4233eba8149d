-- ===== src/Web/Bytecode/Encode/Machine.antt =====
-- web/bytecode_compiler.go: a whole machine, with the exit of the root marked as failing.
use goji.Prelude.{
  ◌+◌, ◌<◌, ◌≡◌, refl, ◌∙◌, subst, some, List, [], ◌∷◌, ◌++◌, map, length, get_elem?, arith,
  length-map,
}
use goji.Prelude.Bytes.{Bytes}
use goji.Web.Route.{Request, Route}
use goji.Web.Bytecode.{minus_one}
use goji.Web.Bytecode.Trie.{trie, Segments}
use goji.Web.Bytecode.Walk.{walk_segments}
use goji.Web.Bytecode.Encode.{
  exit_state, mark_fail, main_length, main_part, sub_part, assemble, resolve, encode,
  encode_segments,
}
use goji.Web.Bytecode.Encode.Relocate.{pairs_length, length-assemble, length-main_part}
use goji.Web.Bytecode.Encode.Placed.{mark_fail-assemble}
use goji.Web.Bytecode.Encode.Correct.{segments_correct}
use goji.Web.Bytecode.Runner.{running, steps}
use goji.Web.Bytecode.Runner.Reach.{
  visit, Reaches-trans, Reaches-visit, Reaches-step, Reaches-refl, missed, steps-Reaches,
}
use goji.Web.Bytecode.Runner.Instructions.{
  Holds, Holds-self, Holds-left, Holds-right, Holds-move, step-fail,
}

pub length-machine :
    (p : Bytes) (segs : Segments) → 0 < length (map mark_fail (encode (trie p segs) 0 0))
unfolding encode
length-machine p segs = omega (
  arith,
  length-map mark_fail (assemble 0 (encode_segments segs 0)),
  length-assemble 0 (encode_segments segs 0),
)

module _ {C H : Type 0} (segs : Segments) (routes : List (Route C H)) (r : Request) where
  -- The run of the machine of a trie is the search through the routes that the trie holds for the
  -- path, with no panic and no fuel run out.
  pub steps-machine :
      (p : Bytes) (c : C)
      → let sm = map mark_fail (encode (trie p segs) 0 0) in
        steps sm routes r (length sm + 1) (running 0 r.path 0 c)
        ≡ visit routes r (walk_segments segs r.path) 0 c missed
  unfolding encode
  steps-machine p c =
      let ps = encode_segments segs 0 in
      let sm = map mark_fail (assemble 0 ps) in
      let main = map (resolve 0 0) (main_part 0 (main_length ps) 0 ps) in
      let sub = map (resolve 0 0) (sub_part 0 (main_length ps + 1) 0 ps) in
      let h : Holds sm 0 (main ++ mark_fail (exit_state minus_one) ∷ sub) =
        subst (Holds sm 0) (mark_fail-assemble 0 0 segs) (Holds-self [] sm) in
      let el : length main ≡ main_length ps =
        length-map (resolve 0 0) (main_part 0 (main_length ps) 0 ps)
        ∙ length-main_part 0 (main_length ps) 0 ps in
      let hr = Holds-right sm 0 main (mark_fail (exit_state minus_one) ∷ sub) h in
      let (q, g) =
        segments_correct sm routes r segs 0 0 0 0 (main_length ps) 0 (main_length ps + 1) 0 0
          (main_length ps + 1) (main_length ps) [] r.path r.path refl refl
          (Holds-left sm 0 main (mark_fail (exit_state minus_one) ∷ sub) h)
          (Holds-move sm (0 + length main + 1) (main_length ps + 1) sub (omega arith) hr.1)
          (omega arith) (omega arith) (omega arith) (omega arith) in
      let e : get_elem? sm (main_length ps) ≡ some (mark_fail (exit_state minus_one)) =
        subst (λ n. get_elem? sm n ≡ some (mark_fail (exit_state minus_one))) (omega arith) hr.0 in
      steps-Reaches sm routes r (pairs_length ps + 1) _ _ (walk_segments segs r.path) 0 c
        (Reaches-trans sm routes r (pairs_length ps) 1 _ _ _ (g 0 c) (
          Reaches-visit sm routes r 1 (walk_segments segs r.path) _ missed
            (λ ms' c'. Reaches-step sm routes r 0 _ _ (
              rw (step-fail sm routes r (main_length ps) q ms' c' e)
                (Reaches-refl sm routes r 0 _)))
            0 c))
        (omega (arith, length-map mark_fail (assemble 0 ps), length-assemble 0 ps))
