-- ===== src/Web/Bytecode/Correct.antt =====
-- web/bytecode_compiler.go, web/bytecode_runner.go: the compiled machine and the naive router.
use goji.Prelude.{
  ℕ, suc, ◌+◌, ◌≤◌, ◌<◌, ◌≡◌, refl, sym, ◌∙◌, ap, subst, some, List, [], ◌∷◌, ◌++◌, length,
  get_elem?, arith, Bool-cases, inl, inr, All, keep, map, get_elem?-append, length-append,
}
use mathlib.Core.List.{append_assoc}
use goji.Prelude.Bytes.{has_prefix}
use goji.Web.Method.{Method, http_method}
use goji.Web.Route.{Request, Route, plausible, match_route, scan}
use goji.Web.Bytecode.{StateMachine}
use goji.Web.Bytecode.Trie.{Trie, trie, build_trie}
use goji.Web.Bytecode.Trie.Hits.{IsOrdered, Under, hits}
use goji.Web.Bytecode.Trie.Group.{Fits}
use goji.Web.Bytecode.Trie.Build.{build_trie-Builds, walk_trie}
use goji.Web.Bytecode.Walk.{walk}
use goji.Web.Bytecode.Encode.{mark_fail, encode, depth_bound, compile}
use goji.Web.Bytecode.Encode.Machine.{length-machine, steps-machine}
use goji.Web.Bytecode.Runner.{running, returned, attempt, steps, route}
use goji.Web.Bytecode.Runner.Reach.{visit, missed}

module _ {C H : Type 0} where
  -- The search by indices is the naive search through the plausible routes.
  visit-hits :
      (r : Request) (n : ℕ) (pre rs : List (Route C H)) (ms : Method) (c : C)
      → length pre ≡ n
      → visit (pre ++ rs) r (hits n rs r.path) ms c missed
        ≡ returned (scan (http_method r.method) r (keep (plausible r.path) rs) ms c)
  unfolding visit attempt hits scan
  visit-hits r n pre [] ms c e = refl
  visit-hits r n pre (rt ∷ rs) ms c e =
      let rest = λ (ms : Method) (c : C).
        subst
          (λ l.
            visit l r (hits (suc n) rs r.path) ms c missed
            ≡ returned (scan (http_method r.method) r (keep (plausible r.path) rs) ms c))
          (append_assoc pre (rt ∷ []) rs)
          (visit-hits r (suc n) (pre ++ rt ∷ []) rs ms c
            (omega (arith, length-append pre (rt ∷ [])))) in
      elim (Bool-cases (has_prefix r.path rt.prefix)) [
        | inl hit ↦
            let found : get_elem? (pre ++ rt ∷ rs) n ≡ some rt =
              subst (λ m. get_elem? (pre ++ rt ∷ rs) m ≡ some rt) e (get_elem?-append pre rt rs) in
            let t = match_route rt (http_method r.method) ms r c in
            rw (hit, found)
              (elim (Bool-cases t.result) [
                | inl yes_hit ↦ rw yes_hit
                | inr no_hit ↦ rw no_hit (rest t.methods t.context)
              ])
        | inr miss ↦ rw miss (rest ms c)
      ]

  Fits-depth_bound : (n : ℕ) (rs : List (Route C H)) → depth_bound rs ≤ n → All (Fits n) rs
  unfolding depth_bound
  Fits-depth_bound n [] h = tt
  Fits-depth_bound n (r ∷ rs) h = (omega arith, Fits-depth_bound n rs (omega arith))

  Under-nil : (rs : List (Route C H)) → All (Under []) rs
  Under-nil [] = tt
  Under-nil (r ∷ rs) = ((r.prefix, refl), Under-nil rs)

  route_empty :
      (r : Request) (c : C)
      → route {C = C} {H = H} [] [] r c ≡ returned (scan (http_method r.method) r [] 0 c)
  unfolding route scan
  route_empty r c = refl

  route-steps :
      (sm : StateMachine) (rs : List (Route C H)) (r : Request) (c : C)
      → 0 < length sm
      → route sm rs r c ≡ steps sm rs r (length sm + 1) (running 0 r.path 0 c)
  unfolding route
  route-steps [] rs r c h = absurd (omega arith)
  route-steps (s ∷ sm) rs r c h = refl

  -- The machine of a trie tries the routes that the trie holds for the path.
  route-encode :
      (t : Trie) (rs : List (Route C H)) (r : Request) (c : C)
      → route (map mark_fail (encode t 0 0)) rs r c ≡ visit rs r (walk t r.path) 0 c missed
  route-encode (trie p segs) rs r c =
      route-steps (map mark_fail (encode (trie p segs) 0 0)) rs r c (length-machine p segs)
      ∙ steps-machine segs rs r p c
      ∙ ap (λ xs. visit rs r xs 0 c missed) (sym (walk_trie p r.path segs))

  -- For a list of routes in the router's order, whatever their patterns do: the compiled machine,
  -- run on any request, returns, without an index or a slice out of range, and it returns what a
  -- search through the routes whose prefix the path begins with, one after another in their order,
  -- returns. That is the route that it found, the methods met when there is none, and the context
  -- that all the calls of the patterns leave.
  pub route-compile :
      (rs : List (Route C H)) (r : Request) (c : C)
      → IsOrdered rs
      → route (compile rs) rs r c
        ≡ returned (scan (http_method r.method) r (keep (plausible r.path) rs) 0 c)
  unfolding compile
  route-compile [] r c o = route_empty r c
  route-compile (rt ∷ rs) r c o =
      let f = depth_bound (rt ∷ rs) in
      route-encode (build_trie f (rt ∷ rs) 0 0) (rt ∷ rs) r c
      ∙ ap (λ xs. visit (rt ∷ rs) r xs 0 c missed)
          (build_trie-Builds f (rt ∷ rs) 0 0 [] r.path refl (Under-nil (rt ∷ rs)) o
            (Fits-depth_bound (f + 0) (rt ∷ rs) (omega arith)))
      ∙ visit-hits r 0 [] (rt ∷ rs) 0 c refl
