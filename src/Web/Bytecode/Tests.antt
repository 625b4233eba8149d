-- ===== src/Web/Bytecode/Tests.antt =====
-- web/bytecode_compiler.go: the machine of a small route table, run on a request.
use goji.Prelude.{ℕ, ◌≡◌, refl, ◌+◌, Bool, true, false, some, List, [], ◌∷◌}
use goji.Prelude.Bytes.{Bytes, codes}
use goji.Web.Method.{http_method, m_get, m_post, m_all}
use goji.Web.Route.{string_type, Request, Pattern, Route, match_route, scan}
use goji.Web.Bytecode.Encode.{compile}
use goji.Web.Bytecode.Trie.Hits.{IsOrdered}
use goji.Web.Bytecode.Correct.{route-compile}
use goji.Web.Bytecode.Runner.{returned, route}

-- A pattern that records in the context that it was called, and then matches a fixed answer.
abbrev recording : ℕ → Bytes → Bool → Pattern (List ℕ)
recording n p answer = record {
  raw = string_type p;
  prefix = p;
  match = λ r c. (answer, n ∷ c);
  run = λ r c. (n + 100) ∷ c;
}

abbrev entry : ℕ → Bytes → Bool → ℕ → Route (List ℕ) ℕ
entry n p answer m = record { prefix = p; method = m; pattern = recording n p answer; handler = n }

abbrev table : List (Route (List ℕ) ℕ)
table =
    entry 0 (codes "/") false m_all
    ∷ entry 1 (codes "/hello/") false m_get
    ∷ entry 2 (codes "/hello/carl") true m_post
    ∷ entry 3 (codes "/hello/world") true m_all
    ∷ entry 4 (codes "/help") true m_all
    ∷ entry 5 (codes "/") true m_get
    ∷ []

abbrev get : Bytes → Request
get path = record { method = codes "GET"; path = path }

machine : Unit {0}
unfolding compile route http_method match_route
machine = tt

table_hello_carl :
    route (compile table) table (get (codes "/hello/carl")) []
    ≡ returned (record {
      methods = 0;
      result = some (entry 5 (codes "/") true m_get);
      context = 105 ∷ 5 ∷ 2 ∷ 1 ∷ 0 ∷ [];
    })
unfolding machine
table_hello_carl = refl

table-IsOrdered : IsOrdered table
table-IsOrdered = (refl, (refl, (refl, (refl, (refl, (tt, tt))))))

route-compile_example :
    route (compile table) table (get (codes "/hello/carl")) []
    ≡ returned (record {
      methods = 0;
      result = some (entry 5 (codes "/") true m_get);
      context = 105 ∷ 5 ∷ 2 ∷ 1 ∷ 0 ∷ [];
    })
unfolding machine scan
route-compile_example = route-compile table (get (codes "/hello/carl")) [] table-IsOrdered
