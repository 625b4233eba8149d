-- ===== src/Web/WriterProxy/Tests.antt =====
-- web/mutil/writer_proxy.go: one run of a proxy in front of a writer that records its calls.
use goji.Prelude.{ℕ, ◌≡◌, Option, none, some, List, [], ◌∷◌, ◌++◌, length}
use goji.Prelude.Bytes.{Bytes, codes}
use goji.Web.WriterProxy.{
  WriterCall, writes_header, writes, tees, wrap_writer, writer_run, first_status, headed, bodied,
  writer_run-wrap,
}

abbrev status : ℕ → List ℕ → List ℕ
status code u = u ++ code ∷ []

abbrev body : Bytes → List ℕ → (ℕ × Option ℕ) × List ℕ
body buf u = ((length buf, none), u ++ length buf ∷ [])

abbrev copied_to : Bytes → Bytes → Option ℕ × Bytes
copied_to buf t = (none, t ++ buf)

abbrev response : List (WriterCall Bytes)
response = writes (codes "ab") ∷ writes_header 500 ∷ tees (some []) ∷ writes (codes "cde") ∷ []

ran : Unit {0}
unfolding writer_run first_status headed bodied
ran = tt

writer_run-wrap_example :
    ((writer_run status body copied_to body response
        (wrap_writer status body copied_to body [])).code
      ≡ 200)
    × ((writer_run status body copied_to body response
          (wrap_writer status body copied_to body [])).inner
        ≡ 200 ∷ 2 ∷ 3 ∷ [])
    × ((writer_run status body copied_to body response
          (wrap_writer status body copied_to body [])).bytes
        ≡ 5)
unfolding ran
writer_run-wrap_example = writer_run-wrap status body copied_to body response []
