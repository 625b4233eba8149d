-- ===== src/Web/Middleware/Tests.antt =====
-- web/middleware: one request through each.
use goji.Prelude.{
  ℕ, true, false, Option, none, some, List, [], ◌∷◌, ◌++◌, ◌≡◌, ◌≢◌, refl, length, arith,
  if◌then◌else◌,
}
use goji.Prelude.Bytes.{Bytes, codes}
use goji.Web.Context.{Match, no_match, match_value, match_key, get_match, read, lookup}
use goji.Web.Middleware.{Shared, Handler}
use goji.Web.Middleware.SubRouter.{
  enter, sub_router, suffix_of, is_made, is_handled, sub_router_lem, delete_match,
}
use goji.Web.Middleware.RequestId.{get_req_id, seen, counter, request_ids_differ}
use goji.Web.Middleware.Panics.{logger}
use goji.Web.WriterProxy.{WriterCall, tees, writer_run, writer_call}

abbrev route_match : Match ℕ
route_match = record { pattern = none; handler = some 9 }

abbrev admin : Shared ℕ ℕ
admin = record {
  request = record { path = codes "/admin/x"; header = []; remote_addr = codes "1.2.3.4" };
  context = record {
    url_params = some ((codes "*", codes "/x") ∷ []);
    env = some ((match_key, match_value route_match) ∷ []);
  };
  response = [];
  rest = 0;
}

-- A handler that panics.
abbrev failing : Handler ℕ ℕ
failing s = (record s { rest = 1 }, some 3)

suffix : suffix_of admin.context.url_params ≡ some (codes "/x")
unfolding suffix_of lookup
suffix = refl

made : is_made (failing (enter (codes "/x") admin)).0.context.env ≡ true
unfolding enter get_match read lookup delete_match
made = refl

sub_router_lem_example :
    let inner = enter (codes "/x") admin in
    let (t, panic) = failing inner in
    let (r, panic') = sub_router failing admin in
    let old = get_match admin.context in
    ((inner.request.path ≡ codes "/x") × ((get_match inner.context).handler ≡ none))
    × ((r.request.path ≡ codes "/admin/x")
        × ((panic' ≡ panic)
            × ((read (codes "reqID") r.context.env ≡ read (codes "reqID") t.context.env)
                × (get_match r.context ≡ (if is_handled old.handler then old else no_match)))))
sub_router_lem_example = sub_router_lem failing admin (codes "/x") (codes "reqID") suffix refl made

request_ids_differ_example :
    get_req_id (seen (codes "host/abc") (counter 2) admin)
    ≢ get_req_id (seen (codes "host/abc") (counter 5) admin)
request_ids_differ_example =
    request_ids_differ (codes "host/abc") 2 5 admin admin (omega arith) (omega arith)

abbrev status : ℕ → List ℕ → List ℕ
status code u = u ++ code ∷ []

abbrev body : Bytes → List ℕ → (ℕ × Option ℕ) × List ℕ
body buf u = ((length buf, none), u ++ length buf ∷ [])

abbrev copied_to : Bytes → Bytes → Option ℕ × Bytes
copied_to buf t = (none, t ++ buf)

abbrev calls : List (WriterCall Bytes)
calls = tees (some []) ∷ []

sent_200 : (logger status body copied_to body calls false []).inner ≡ 200 ∷ []
unfolding logger writer_run writer_call
sent_200 = refl
