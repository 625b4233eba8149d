-- ===== src/Web/Router/Tests.antt =====
-- web/router.go: routers with string patterns on concrete requests.
use goji.Prelude.{ℕ, ◌≡◌, refl, false, none, some, List, [], ◌∷◌, All}
use goji.Prelude.Bytes.{Bytes, codes}
use goji.Web.Method.{http_method, m_get, m_post, m_all}
use goji.Web.Route.{string_type, Request, Pattern, scan, match_route}
use goji.Web.Context.{Context, read, set_env}
use goji.Web.StringPattern.{StringPattern, as_pattern, match_path, store}
use goji.Web.StringPattern.Match.{as_pattern-KeepsPrefix}
use goji.Web.Router.{Router, finished, handle, to_match, get_match_for}
use goji.Web.Router.Naive.{new_router, LawfulRoute}
use goji.Web.Router.Search.{IsValid}
use goji.Web.Router.History.{
  Call, handles, compiles, requests, serve, added, serve-IsValid, get_match_for-in_order,
}

-- What `parseStringPattern` makes of "/hello/:name", and of a text without names.
abbrev hello_name : StringPattern
hello_name = record {
  raw = codes "/hello/:name";
  pats = codes "name" ∷ [];
  breaks = b'/' ∷ [];
  literals = codes "/hello/" ∷ [] ∷ [];
  wildcard = false;
}

abbrev plain : Bytes → StringPattern
plain raw = record { raw = raw; pats = []; breaks = []; literals = raw ∷ []; wildcard = false }

abbrev pattern_of : Bytes → Pattern (Context ℕ)
pattern_of raw = as_pattern (plain raw)

abbrev fresh_context : Context ℕ
fresh_context = record { url_params = none; env = none }

abbrev sample_request : Bytes → Request
sample_request p = record { method = codes "GET"; path = p }

abbrev calls : List (Call ℕ)
calls =
    handles (as_pattern hello_name) m_get 0
    ∷ handles (pattern_of (codes "/a")) m_all 1
    ∷ requests (sample_request (codes "/hello/x")) fresh_context
    ∷ handles (pattern_of (codes "/hello/carl")) m_post 2
    ∷ compiles
    ∷ handles (pattern_of (codes "/")) m_post 3
    ∷ []

abbrev started : Router (Context ℕ) ℕ
started = new_router 404

runs : Unit {0}
unfolding get_match_for serve added http_method scan match_route match_path store to_match handle
    set_env read
runs = tt

calls_lawful : All LawfulRoute (added calls)
unfolding added
calls_lawful = (
  (as_pattern-KeepsPrefix ℕ hello_name, refl),
  (
    (as_pattern-KeepsPrefix ℕ (plain (codes "/a")), refl),
    (
      (as_pattern-KeepsPrefix ℕ (plain (codes "/hello/carl")), refl),
      ((as_pattern-KeepsPrefix ℕ (plain (codes "/")), refl), tt),
    ),
  ),
)

started-IsValid : IsValid started
started-IsValid = record { ordered = tt; fresh = tt }

get_match_for-in_order_example :
    (get_match_for
      (serve (new_router 404) calls)
      (sample_request (codes "/hello/carl"))
      fresh_context).0
    ≡ finished (
      record { pattern = some (string_type (codes "/hello/:name")); handler = some 0 },
      record { url_params = some ((codes "name", codes "carl") ∷ []); env = none },
    )
unfolding runs
get_match_for-in_order_example =
    get_match_for-in_order 404 calls (sample_request (codes "/hello/carl")) fresh_context
      calls_lawful

serve-IsValid_example : IsValid (serve started calls)
serve-IsValid_example = serve-IsValid calls started started-IsValid
