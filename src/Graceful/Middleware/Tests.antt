-- ===== src/Graceful/Middleware/Tests.antt =====
-- graceful/middleware.go: a shutdown that begins before the handler writes, and a handler that
-- flushes or takes the connection over first.
use goji.Prelude.{true, false, none, some, List, [], ◌∷◌, ◌≡◌, refl}
use goji.Prelude.Bytes.{codes}
use goji.Web.Context.{insert}
use goji.Graceful.Middleware.{
  WriterCall, sets, writes_header, writes, flushes, hijacks, close_notifies, middleware, answer,
  takes_over, writer_run,
}
use goji.Graceful.Middleware.Answer.{middleware_lem}

abbrev calls : List WriterCall
calls =
    sets (codes "A") (codes "b")
    ∷ close_notifies
    ∷ writes_header true
    ∷ sets (codes "C") (codes "d")
    ∷ writes true
    ∷ hijacks true
    ∷ []

closes_connection :
    (middleware true calls true []).sent
    ≡ some ((codes "A", codes "b") ∷ (codes "Connection", codes "close") ∷ [])
unfolding middleware writer_run insert
closes_connection = refl

-- A flush sends the headers before `maybeClose` has seen them.
flushed_open :
    (middleware true (sets (codes "A") (codes "b") ∷ flushes ∷ writes true ∷ []) true []).sent
    ≡ some ((codes "A", codes "b") ∷ [])
unfolding middleware writer_run insert
flushed_open = refl

taken_over : (middleware true (hijacks true ∷ writes true ∷ []) true []).sent ≡ none
unfolding middleware writer_run
taken_over = refl

middleware_lem_example :
    ((middleware true calls false []).sent ≡ answer true calls false [])
    × ((middleware true calls false []).disowned ≡ takes_over true calls)
middleware_lem_example = middleware_lem true calls false []
