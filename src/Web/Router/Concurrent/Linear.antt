-- ===== src/Web/Router/Concurrent/Linear.antt =====
-- web/router.go: whatever goroutines do on a router, a request is answered by the routes of a moment
-- between its beginning and its end.
use goji.Prelude.{
  ℕ, zero, suc, ◌≤◌, ◌≡◌, refl, sym, ◌∙◌, ap₂, subst, some, List, [], ◌∷◌, length, take, All,
}
use goji.Web.Method.{http_method}
use goji.Web.Route.{Request, scan}
use goji.Web.Context.{Context}
use goji.Web.Bytecode.Runner
use goji.Web.Router.{RouteMachine, get_machine, get_match_for, ended, finished, to_match}
use goji.Web.Router.Naive.{new_router, LawfulRoute}
use goji.Web.Router.History.{
  Call, handles, compiles, requests, serve, serve-not_found, new_router-IsValid, added,
  serve-IsValid, get_match_for-in_order,
}
use goji.Web.Router.Search.{IsFresh, or_compile-IsFresh}
use goji.Web.Router.Concurrent.{found, Event, happen, new_system, answer}
use goji.Web.Router.Concurrent.Steps.{happen-IsConsistent}
use goji.Web.Router.Concurrent.Invariant.{IsHonest, IsConsistent}

module _ {H : Type 0} where
  added-take :
      (v : ℕ) (log : List (Call H))
      → All LawfulRoute (added log)
      → All LawfulRoute (added (take v log))
  unfolding added
  added-take zero log l = tt
  added-take (suc v) [] l = tt
  added-take (suc v) (handles p m h ∷ log) l = (l.0, added-take v log l.1)
  added-take (suc v) (compiles ∷ log) l = added-take v log l
  added-take (suc v) (requests r c ∷ log) l = added-take v log l

module _ {H : Type 0} (nf : H) where
  new_system-IsConsistent : IsConsistent nf (new_system nf)
  unfolding serve
  new_system-IsConsistent = record { routes = refl; not_found = refl; fresh = tt; honest = λ i. tt }

  answer-serve :
      (log : List (Call H)) (rm : RouteMachine (Context H) H) (r : Request) (c : Context H)
      → IsFresh (serve (new_router nf) log).routes (some rm)
      → answer nf rm r c ≡ (get_match_for (serve (new_router nf) log) r c).0
  unfolding get_match_for get_machine
  answer-serve log rm r c fresh =
      let rt = serve (new_router nf) log in
      let v = serve-IsValid log (new_router nf) (new_router-IsValid nf) in
      let (same_sm, same_routes, kept) = or_compile-IsFresh rt.machine rt refl v.fresh in
      ap₂ (λ n o. ended n o)
        (sym (kept.1 ∙ serve-not_found log (new_router nf) (new_router-IsValid nf)))
        (ap₂ (λ sm rs. Runner.route sm rs r c) (fresh.0 ∙ sym same_sm) (fresh.1 ∙ sym same_routes))

  -- For any interleaving of goroutines that call handle, getMatch and Compile on a new router, with
  -- every lock, load and store a step of its own, and patterns that keep to their prefix: a getMatch
  -- that has its machine answers as the naive router does that tries the routes of the first v calls
  -- of handle in their order, where v is at least the number of calls that had stored their list
  -- when this getMatch began, and at most the number of those that have.
  pub answer-in_order :
      (es : List (Event H)) (i n : ℕ) (rm : RouteMachine (Context H) H) (r : Request)
      (c : Context H)
      → let s = happen es (new_system nf) in
        s.threads i ≡ found n rm
        → All LawfulRoute (added s.stored)
        → (v : ℕ) × (n ≤ v)
          × (v ≤ length s.stored)
          × (answer nf rm r c
              ≡ finished
                  (to_match nf (scan (http_method r.method) r (added (take v s.stored)) 0 c)))
  answer-in_order es i n rm r c e lawful =
      let s = happen es (new_system nf) in
      let k = happen-IsConsistent nf es (new_system nf) new_system-IsConsistent in
      let recent = subst (IsHonest nf s.router s.holder s.stored i) e (k.honest i) in
      (
        recent.version,
        recent.after,
        recent.before,
        answer-serve (take recent.version s.stored) rm r c recent.same
            ∙ get_match_for-in_order nf (take recent.version s.stored) r c
                (added-take recent.version s.stored lawful),
      )
