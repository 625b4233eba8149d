-- ===== src/Web/Router/History.antt =====
-- web/router.go: a router over any history of calls.
use goji.Prelude.{◌≡◌, refl, sym, ◌∙◌, ap, ap₂, subst, List, [], ◌∷◌, ◌++◌, All, keep, keep-append}
use mathlib.Core.List.{append_assoc, append-nil}
use goji.Prelude.Bytes.{Bytes}
use goji.Web.Method.{Method, http_method}
use goji.Web.Route.{Request, Pattern, Route, plausible, scan}
use goji.Web.Context.{Context}
use goji.Web.Bytecode.Trie.Hits.{IsOrdered}
use goji.Web.Router.{Router, finished, new_route, handle, compile_router, to_match, get_match_for}
use goji.Web.Router.Order.{handle-IsOrdered, handle-plausible}
use goji.Web.Router.Naive.{new_router, LawfulRoute, scan-plausible}
use goji.Web.Router.Search.{IsValid, Keeps, handle_drops, compile_router-Keeps, get_match_for-scan}

-- The calls that a router serves.
pub data Call (H : Type 0) : Type 0 where
  handles : Pattern (Context H) → Method → H → Call H
  compiles : Call H
  requests : Request → Context H → Call H

module _ {H : Type 0} where
  unfoldable pub serve : Router (Context H) H → List (Call H) → Router (Context H) H
  serve rt [] = rt
  serve rt (handles p m h ∷ cs) = serve (handle rt p m h) cs
  serve rt (compiles ∷ cs) = serve (compile_router rt).1 cs
  serve rt (requests r c ∷ cs) = serve (get_match_for rt r c).1 cs

  -- The routes that a history adds, in the order of the calls.
  unfoldable pub added : List (Call H) → List (Route (Context H) H)
  added [] = []
  added (handles p m h ∷ cs) = new_route p m h ∷ added cs
  added (_ ∷ cs) = added cs

  handle-not_found :
      (rt : Router (Context H) H) (p : Pattern (Context H)) (m : Method) (h : H)
      → (handle rt p m h).not_found ≡ rt.not_found
  unfolding handle
  handle-not_found rt p m h = refl

  handle-IsValid :
      (rt : Router (Context H) H) (p : Pattern (Context H)) (m : Method) (h : H)
      → IsValid rt
      → IsValid (handle rt p m h)
  handle-IsValid rt p m h v = record {
    ordered = handle-IsOrdered rt p m h v.ordered;
    fresh = handle_drops rt p m h;
  }

  Keeps-IsValid : (rt rt' : Router (Context H) H) → Keeps rt rt' → IsValid rt → IsValid rt'
  Keeps-IsValid rt rt' k v = record { ordered = subst IsOrdered (sym k.0) v.ordered; fresh = k.2 }

  get_match_for-IsValid :
      (rt : Router (Context H) H) (r : Request) (c : Context H)
      → IsValid rt
      → IsValid (get_match_for rt r c).1
  get_match_for-IsValid rt r c v =
      Keeps-IsValid rt (get_match_for rt r c).1 (get_match_for-scan rt r c v).1 v

  compile_router-IsValid : (rt : Router (Context H) H) → IsValid rt → IsValid (compile_router rt).1
  compile_router-IsValid rt v = Keeps-IsValid rt (compile_router rt).1 (compile_router-Keeps rt) v

  -- After any calls the routes are in the compiler's order, and a cached machine is the machine of
  -- the routes: a call of `handle` drops it, and nothing else changes the routes.
  pub serve-IsValid :
      (cs : List (Call H)) (rt : Router (Context H) H) → IsValid rt → IsValid (serve rt cs)
  unfolding serve
  serve-IsValid [] rt v = v
  serve-IsValid (handles p m h ∷ cs) rt v =
      serve-IsValid cs (handle rt p m h) (handle-IsValid rt p m h v)
  serve-IsValid (compiles ∷ cs) rt v =
      serve-IsValid cs (compile_router rt).1 (compile_router-IsValid rt v)
  serve-IsValid (requests r c ∷ cs) rt v =
      serve-IsValid cs (get_match_for rt r c).1 (get_match_for-IsValid rt r c v)

  pub serve-not_found :
      (cs : List (Call H)) (rt : Router (Context H) H)
      → IsValid rt
      → (serve rt cs).not_found ≡ rt.not_found
  unfolding serve
  serve-not_found [] rt v = refl
  serve-not_found (handles p m h ∷ cs) rt v =
      serve-not_found cs (handle rt p m h) (handle-IsValid rt p m h v) ∙ handle-not_found rt p m h
  serve-not_found (compiles ∷ cs) rt v =
      serve-not_found cs (compile_router rt).1 (compile_router-IsValid rt v)
      ∙ (compile_router-Keeps rt).1
  serve-not_found (requests r c ∷ cs) rt v =
      serve-not_found cs (get_match_for rt r c).1 (get_match_for-IsValid rt r c v)
      ∙ (get_match_for-scan rt r c v).1.1

  serve-plausible :
      (cs : List (Call H)) (rt : Router (Context H) H) (path : Bytes)
      → IsValid rt
      → keep (plausible path) (serve rt cs).routes ≡ keep (plausible path) (rt.routes ++ added cs)
  unfolding serve added
  serve-plausible [] rt path v = ap (keep (plausible path)) (sym (append-nil rt.routes))
  serve-plausible (handles p m h ∷ cs) rt path v =
      serve-plausible cs (handle rt p m h) path (handle-IsValid rt p m h v)
      ∙ keep-append (plausible path) (handle rt p m h).routes (added cs)
      ∙ ap (λ l. l ++ keep (plausible path) (added cs)) (handle-plausible rt p m h path)
      ∙ sym (keep-append (plausible path) (rt.routes ++ new_route p m h ∷ []) (added cs))
      ∙ ap (keep (plausible path)) (append_assoc rt.routes (new_route p m h ∷ []) (added cs))
  serve-plausible (compiles ∷ cs) rt path v =
      serve-plausible cs (compile_router rt).1 path (compile_router-IsValid rt v)
      ∙ ap (λ l. keep (plausible path) (l ++ added cs)) (compile_router-Keeps rt).0
  serve-plausible (requests r c ∷ cs) rt path v =
      serve-plausible cs (get_match_for rt r c).1 path (get_match_for-IsValid rt r c v)
      ∙ ap (λ l. keep (plausible path) (l ++ added cs)) (get_match_for-scan rt r c v).1.0

  pub new_router-IsValid : (nf : H) → IsValid (new_router {C = Context H} nf)
  new_router-IsValid nf = record { ordered = tt; fresh = tt }

  -- A new router serves any calls, in any order, of `handle`, `Compile` and requests. Then a request
  -- is routed without a fault to what the naive router finds that tries the routes one after
  -- another in the order in which they were added, if every pattern keeps to its prefix.
  pub get_match_for-in_order :
      (nf : H) (cs : List (Call H)) (r : Request) (c : Context H)
      → All LawfulRoute (added cs)
      → (get_match_for (serve (new_router nf) cs) r c).0
        ≡ finished (to_match nf (scan (http_method r.method) r (added cs) 0 c))
  get_match_for-in_order nf cs r c lawful =
      let v = new_router-IsValid nf in
      let rt = serve (new_router nf) cs in
      (get_match_for-scan rt r c (serve-IsValid cs (new_router nf) v)).0
      ∙ ap₂ (λ n l. finished (to_match n (scan (http_method r.method) r l 0 c)))
          (serve-not_found cs (new_router nf) v) (serve-plausible cs (new_router nf) r.path v)
      ∙ ap (λ f. finished (to_match nf f))
          (scan-plausible (added cs) (http_method r.method) 0 r c lawful)
