-- ===== src/Web/Router/Concurrent/Tests.antt =====
-- web/router.go: a request that comes while a route is added.
use goji.Prelude.{ℕ, ◌≤◌, ◌≡◌, refl, false, none, List, [], ◌∷◌, take, length, All, inr}
use goji.Prelude.Bytes.{codes}
use goji.Web.Method.{http_method, m_get}
use goji.Web.Route.{Request, Pattern, Route, scan}
use goji.Web.Context.{Context}
use goji.Web.StringPattern.{StringPattern, as_pattern}
use goji.Web.StringPattern.Match.{as_pattern-KeepsPrefix}
use goji.Web.Bytecode.Encode.{compile}
use goji.Web.Router.{
  RouteMachine, finished, new_route, handle, insertion_point, compile_router, to_match,
}
use goji.Web.Router.Naive.{LawfulRoute}
use goji.Web.Router.History.{added}
use goji.Web.Router.Concurrent.{
  System, Event, found, misses, calls_handle, calls_get_match, steps, happens, step_thread, happen,
  new_system, answer,
}
use goji.Web.Router.Concurrent.Progress.{Finds, getting-Finds}
use goji.Web.Router.Concurrent.Linear.{answer-in_order}

abbrev slash_a : StringPattern
slash_a = record {
  raw = codes "/a";
  pats = [];
  breaks = [];
  literals = codes "/a" ∷ [];
  wildcard = false;
}

abbrev the_pattern : Pattern (Context ℕ)
the_pattern = as_pattern slash_a

-- Goroutine 1 finds no machine while goroutine 0 has the lock, waits, and compiles.
abbrev events : List (Event ℕ)
events =
    calls_handle 0 the_pattern m_get 7
    ∷ steps 0
    ∷ calls_get_match 1
    ∷ steps 1
    ∷ steps 0
    ∷ steps 1
    ∷ steps 0
    ∷ steps 1
    ∷ steps 1
    ∷ []

abbrev after : System ℕ
after = happen events (new_system 404)

abbrev one_route : List (Route (Context ℕ) ℕ)
one_route = new_route the_pattern m_get 7 ∷ []

abbrev its_machine : RouteMachine (Context ℕ) ℕ
its_machine = record { sm = compile one_route; routes = one_route }

abbrev get_a : Request
get_a = record { method = codes "GET"; path = codes "/a" }

abbrev no_context : Context ℕ
no_context = record { url_params = none; env = none }

after-found : after.threads 1 ≡ found 0 its_machine
unfolding happen happens step_thread handle compile_router insertion_point
after-found = refl

after-lawful : All LawfulRoute (added after.stored)
unfolding happen happens step_thread handle compile_router insertion_point added
after-lawful = ((as_pattern-KeepsPrefix ℕ slash_a, refl), tt)

answer-in_order_example :
    (v : ℕ) × (0 ≤ v)
    × (v ≤ length after.stored)
    × (answer 404 its_machine get_a no_context
        ≡ finished (
            to_match 404
              (scan (http_method (codes "GET")) get_a (added (take v after.stored)) 0 no_context)))
answer-in_order_example =
    answer-in_order 404 events 1 0 its_machine get_a no_context after-found after-lawful

-- Goroutine 1 waits for the lock that goroutine 0 has.
abbrev blocked : List (Event ℕ)
blocked = calls_handle 0 the_pattern m_get 7 ∷ steps 0 ∷ calls_get_match 1 ∷ steps 1 ∷ []

blocked-misses : (happen blocked (new_system 404)).threads 1 ≡ misses 0
unfolding happen happens step_thread
blocked-misses = refl

getting-Finds_example : Finds 1 0 (happen blocked (new_system 404))
getting-Finds_example = getting-Finds 404 blocked 1 0 (inr blocked-misses)
