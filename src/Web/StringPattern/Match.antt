-- ===== src/Web/StringPattern/Match.antt =====
-- web/string_pattern.go: `match` on whole patterns.
use goji.Prelude.{
  ◌≡◌, ◌≢◌, ◌↔◌, refl, sym, ◌∙◌, ap, ap₂, subst, Bool, true, false, List, [], ◌∷◌, length, get_or,
}
use goji.Prelude.Bytes.{Bytes}
use goji.Web.Router.Naive.{KeepsPrefix}
use goji.Web.StringPattern.{
  StringPattern, Params, Walked, mismatch, walked, out_of_range, walk_pats, matched, panic, finish,
  match_path, is_matched, as_pattern,
}
use goji.Web.StringPattern.Reads.{Reads, bind_all, Reads→walk, walk→Reads}
use goji.Web.StringPattern.Finish.{
  IsWellFormed, with_star, IsReading, walk-literals, walk-in_range, one_literal, finish-matched,
  finish-ends, Same, walk-Same, finish-panic, finish-dryrun, head_eq, match_path-miss,
  matched_injective,
}

module _ (s : StringPattern) (wf : IsWellFormed s) (path : Bytes) where
  abbrev tail_of : Bytes
  tail_of = get_or s.literals (length s.pats) []

  last_literal :
      (dryrun : Bool) (ls : List Bytes) (rest : Bytes) (qs : Params)
      → walk_pats dryrun s.pats s.breaks s.literals path [] ≡ walked rest ls qs
      → ls ≡ tail_of ∷ []
  last_literal dryrun ls rest qs e =
      walk-literals dryrun s.pats s.breaks s.literals ls path rest [] qs e
      ∙ one_literal s.pats s.literals wf.one_more

  walk-IsReading :
      (w : Walked) (qs : Params)
      → walk_pats false s.pats s.breaks s.literals path [] ≡ w
      → finish false s.wildcard w ≡ matched qs
      → IsReading s path qs
  unfolding finish
  walk-IsReading mismatch qs ew e = cc
  walk-IsReading out_of_range qs ew e = cc
  walk-IsReading (walked rest [] acc) qs ew e = cc
  walk-IsReading (walked rest (l ∷ ls) acc) qs ew e =
      let last = last_literal false (l ∷ ls) rest acc ew in
      let e' : finish false s.wildcard (walked rest (tail_of ∷ []) acc) ≡ matched qs =
        ap (λ t. finish false s.wildcard (walked rest t acc)) (sym last) ∙ e in
      let ends = finish-ends false s.wildcard rest tail_of acc qs e' in
      let (values, reads, built) =
        walk→Reads false s.pats s.breaks s.literals (l ∷ ls) path rest [] acc ew in
      record {
        values = values;
        tail = tail_of;
        rest = rest;
        reads = subst (λ t. Reads s.pats s.breaks s.literals path values t rest) last reads;
        ends = ends;
        map_of =
            matched_injective
              (sym e' ∙ finish-matched s.wildcard rest tail_of acc wf.star_tail ends)
            ∙ ap (with_star s.wildcard tail_of rest) built;
      }

  match_of_reading : (qs : Params) → IsReading s path qs → match_path s false path ≡ matched qs
  unfolding match_path
  match_of_reading qs i =
      let ew =
        Reads→walk false s.pats s.breaks s.literals (i.tail ∷ []) path i.rest i.values [] i.reads in
      let same : i.tail ≡ tail_of =
        ap (λ l. get_or l 0 []) (last_literal false (i.tail ∷ []) i.rest _ ew) in
      ap (finish false s.wildcard) ew
      ∙ finish-matched s.wildcard i.rest i.tail (bind_all false i.values [])
          (λ w. subst (λ t. t ≢ []) (sym same) (wf.star_tail w)) i.ends
      ∙ ap matched (sym i.map_of)

  finish-in_range :
      (dryrun : Bool) (w : Walked)
      → walk_pats dryrun s.pats s.breaks s.literals path [] ≡ w
      → finish dryrun s.wildcard w ≢ panic
  unfolding finish
  finish-in_range dryrun mismatch ew = λ e. cc
  finish-in_range dryrun out_of_range ew =
      absurd (walk-in_range dryrun s.pats s.breaks s.literals path [] wf.one_more wf.each_breaks ew)
  finish-in_range dryrun (walked rest [] acc) ew = cc (last_literal dryrun [] rest acc ew)
  finish-in_range dryrun (walked rest (l ∷ ls) acc) ew =
      finish-panic dryrun s.wildcard rest l ls acc (λ w.
        subst (λ t. t ≢ []) (sym (head_eq (last_literal dryrun (l ∷ ls) rest acc ew)))
          (wf.star_tail w))

  finish-agree :
      (w w' : Walked)
      → walk_pats true s.pats s.breaks s.literals path [] ≡ w
      → Same w w'
      → is_matched (finish true s.wildcard w) ≡ is_matched (finish false s.wildcard w')
  unfolding finish
  finish-agree mismatch mismatch ew h = refl
  finish-agree out_of_range out_of_range ew h = refl
  finish-agree (walked rest [] acc) (walked rest' ls' acc') ew (hr, hl) =
      cc (last_literal true [] rest acc ew)
  finish-agree (walked rest (l ∷ ls) acc) (walked rest' ls' acc') ew (hr, hl) =
      finish-dryrun s.wildcard rest l ls acc acc' (λ w.
        subst (λ t. t ≢ []) (sym (head_eq (last_literal true (l ∷ ls) rest acc ew)))
          (wf.star_tail w))
      ∙ ap₂ (λ a b. is_matched (finish false s.wildcard (walked a b acc'))) hr hl
  finish-agree mismatch (walked _ _ _) ew h = absurd h
  finish-agree mismatch out_of_range ew h = absurd h
  finish-agree out_of_range mismatch ew h = absurd h
  finish-agree out_of_range (walked _ _ _) ew h = absurd h
  finish-agree (walked _ _ _) mismatch ew h = absurd h
  finish-agree (walked _ _ _) out_of_range ew h = absurd h

-- A run of a well-formed pattern succeeds with a map exactly where the pattern has a reading of
-- the path with that map: the path is the literals with a value for each name between them, each
-- value non-empty, without a slash or its break character, and cut off by one of these or by the
-- end of the path; what is left is the last literal, or begins with it under a wildcard; and the
-- map binds each name to its value, a later one of two equal names winning, and "*" to what
-- follows the last literal, with that literal's last byte in front.
pub match_path_iff :
    (s : StringPattern) (path : Bytes) (qs : Params)
    → IsWellFormed s
    → (match_path s false path ≡ matched qs) ↔ IsReading s path qs
unfolding match_path
match_path_iff s path qs wf = (
  walk-IsReading s wf path (walk_pats false s.pats s.breaks s.literals path []) qs refl,
  match_of_reading s wf path qs,
)

-- On a well-formed pattern neither `Match` nor `Run` indexes or slices out of range, and `Run`
-- succeeds on the paths on which `Match` does.
pub match_path-agree :
    (s : StringPattern) (path : Bytes)
    → IsWellFormed s
    → (match_path s true path ≢ panic)
      × (match_path s false path ≢ panic)
      × (is_matched (match_path s true path) ≡ is_matched (match_path s false path))
unfolding match_path
match_path-agree s path wf = (
  finish-in_range s wf path true _ refl,
  finish-in_range s wf path false _ refl,
  finish-agree s wf path _ _ refl (walk-Same s.pats s.breaks s.literals path [] []),
)

-- A string pattern keeps to its prefix: on a path that does not begin with its first literal
-- `Match` is false, and it never changes the context.
pub as_pattern-KeepsPrefix : (H : Type 0) (s : StringPattern) → KeepsPrefix (as_pattern {H = H} s)
as_pattern-KeepsPrefix H s r c h = ap (λ m. (is_matched m, c)) (match_path-miss s r.path h)
