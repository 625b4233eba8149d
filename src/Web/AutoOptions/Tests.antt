-- ===== src/Web/AutoOptions/Tests.antt =====
-- web/middleware/options.go: responses through the proxy.
use goji.Prelude.{◌≡◌, none, some, [], ◌∷◌}
use goji.Prelude.Bytes.{codes}
use goji.Web.AutoOptions.{
  sets_header, writes_header, writes, add_method, proxy_run, proxy_run-answered, proxy_run-passed,
  opened, all_calls, without_body,
}

adding : Unit {0}
unfolding add_method proxy_run all_calls without_body
adding = tt

proxy_run-answered_example :
    (proxy_run
      ((writes_header 404, some (codes "GET" ∷ codes "HEAD" ∷ []))
        ∷ (writes (codes "nothing here"), none)
        ∷ [])
      (opened [])).w
    ≡ sets_header (codes "Allow") (codes "GET, HEAD, OPTIONS") ∷ writes_header 200 ∷ []
unfolding adding
proxy_run-answered_example =
    proxy_run-answered [] ((writes (codes "nothing here"), none) ∷ [])
      (codes "GET" ∷ codes "HEAD" ∷ []) tt

proxy_run-passed_example :
    (proxy_run
      ((sets_header (codes "A") (codes "b"), none)
        ∷ (writes_header 404, none)
        ∷ (writes (codes "no"), none)
        ∷ [])
      (opened [])).w
    ≡ sets_header (codes "A") (codes "b") ∷ writes_header 404 ∷ writes (codes "no") ∷ []
unfolding adding
proxy_run-passed_example =
    proxy_run-passed ((sets_header (codes "A") (codes "b"), none) ∷ []) (writes_header 404, none)
      ((writes (codes "no"), none) ∷ []) tt tt
