-- ===== src/Graceful/Middleware/Answer.antt =====
-- graceful/middleware.go: what the client gets of a response, whatever the handler calls.
use goji.Prelude.{Bool, true, false, ◌||◌, Option, none, some, List, [], ◌∷◌, ◌≡◌, refl, ◌∙◌, arith}
use goji.Web.Context.{insert}
use goji.Graceful.Middleware.{
  Header, BasicWriter, behind, maybe_close, write_header, hijack, WriterCall, sets, writes_header,
  writes, reads_from, flushes, hijacks, close_notifies, writer_call, writer_run, after_handler,
  new_writer, middleware, with_close, answer, takes_over,
}

abbrev is_some : Option Header → Bool
is_some none = false
is_some (some h) = true

-- Nothing that follows changes what the client gets.
abbrev decided : BasicWriter → Bool
decided b = b.inner.hijacked || is_some b.inner.sent

abbrev Keeps : BasicWriter → BasicWriter → Type 0
Keeps b b' = (decided b' ≡ true) × (b'.inner.sent ≡ b.inner.sent)

behind-Keeps : (b : BasicWriter) → decided b ≡ true → Keeps b (behind b)
behind-Keeps b d = ground arith

maybe_close-Keeps : (c : Bool) (b : BasicWriter) → decided b ≡ true → Keeps b (maybe_close c b)
maybe_close-Keeps c b d = ground arith

call-Keeps :
    (fancy : Bool) (x : WriterCall) (b : BasicWriter)
    → decided b ≡ true
    → Keeps b (writer_call fancy x b)
call-Keeps fancy (sets k v) b d = (d, refl)
call-Keeps fancy (writes_header c) b d = ground arith
call-Keeps fancy (writes c) b d = ground arith
call-Keeps fancy (reads_from c) b d = ground arith
call-Keeps fancy flushes b d = ground arith
call-Keeps fancy (hijacks ok) b d = ground arith
call-Keeps fancy close_notifies b d = (d, refl)

run-Keeps :
    (fancy : Bool) (xs : List WriterCall) (b : BasicWriter)
    → decided b ≡ true
    → Keeps b (writer_run fancy xs b)
unfolding writer_run
run-Keeps fancy [] b d = (d, refl)
run-Keeps fancy (x ∷ xs) b d =
    let (d', e) = call-Keeps fancy x b d in
    let (d'', e') = run-Keeps fancy xs (writer_call fancy x b) d' in (d'', e' ∙ e)

-- After the call that decides, the rest of the handler and of the middleware changes nothing.
end-sent :
    (fancy closing : Bool) (xs : List WriterCall) (b : BasicWriter)
    → decided b ≡ true
    → (behind (after_handler fancy closing (writer_run fancy xs b))).inner.sent ≡ b.inner.sent
end-sent fancy closing xs b d =
    let (d', e) = run-Keeps fancy xs b d in
    let after = maybe_close-Keeps closing (writer_run fancy xs b) d' in ground arith

closed-sent :
    (c : Bool) (h : Header)
    → (decided (write_header c (new_writer h)) ≡ true)
      × ((write_header c (new_writer h)).inner.sent ≡ some (with_close c h))
closed-sent true h = (refl, refl)
closed-sent false h = (refl, refl)

sent-first :
    (fancy closing : Bool) (xs : List WriterCall) (c : Bool) (h : Header)
    → (behind (
        after_handler fancy closing
          (writer_run fancy xs (write_header c (new_writer h))))).inner.sent
      ≡ some (with_close c h)
sent-first fancy closing xs c h = let (d, e) = closed-sent c h in end-sent fancy closing xs _ d ∙ e

sent-middleware :
    (fancy : Bool) (calls : List WriterCall) (closing : Bool) (h : Header)
    → (middleware fancy calls closing h).sent ≡ answer fancy calls closing h
unfolding middleware writer_run answer
sent-middleware true [] closing h = (closed-sent closing h).1
sent-middleware false [] closing h = (closed-sent closing h).1
sent-middleware fancy (sets k v ∷ xs) closing h = sent-middleware fancy xs closing (insert k v h)
sent-middleware fancy (writes_header c ∷ xs) closing h = sent-first fancy closing xs c h
sent-middleware fancy (writes c ∷ xs) closing h = sent-first fancy closing xs c h
sent-middleware fancy (reads_from c ∷ xs) closing h = sent-first fancy closing xs c h
sent-middleware true (flushes ∷ xs) closing h =
    end-sent true closing xs (behind (new_writer h)) refl
sent-middleware false (flushes ∷ xs) closing h = sent-middleware false xs closing h
sent-middleware true (hijacks true ∷ xs) closing h =
    end-sent true closing xs (hijack true true (new_writer h)) refl
sent-middleware true (hijacks false ∷ xs) closing h = sent-middleware true xs closing h
sent-middleware false (hijacks ok ∷ xs) closing h = sent-middleware false xs closing h
sent-middleware fancy (close_notifies ∷ xs) closing h = sent-middleware fancy xs closing h

call-disowned :
    (fancy : Bool) (x : WriterCall) (xs : List WriterCall) (b : BasicWriter)
    → (writer_call fancy x b).inner.disowned || takes_over fancy xs
      ≡ b.inner.disowned || takes_over fancy (x ∷ xs)
unfolding takes_over
call-disowned fancy (sets k v) xs b = refl
call-disowned fancy (writes_header c) xs b = ground arith
call-disowned fancy (writes c) xs b = ground arith
call-disowned fancy (reads_from c) xs b = ground arith
call-disowned fancy flushes xs b = ground arith
call-disowned fancy (hijacks ok) xs b = ground arith
call-disowned fancy close_notifies xs b = refl

run-disowned :
    (fancy : Bool) (xs : List WriterCall) (b : BasicWriter)
    → (writer_run fancy xs b).inner.disowned ≡ b.inner.disowned || takes_over fancy xs
unfolding writer_run takes_over
run-disowned fancy [] b = ground arith
run-disowned fancy (x ∷ xs) b =
    run-disowned fancy xs (writer_call fancy x b) ∙ call-disowned fancy x xs b

after_handler-disowned :
    (fancy closing : Bool) (b : BasicWriter)
    → (behind (after_handler fancy closing b)).inner.disowned ≡ b.inner.disowned
after_handler-disowned fancy closing b = ground arith

disowned-middleware :
    (fancy : Bool) (calls : List WriterCall) (closing : Bool) (h : Header)
    → (middleware fancy calls closing h).disowned ≡ takes_over fancy calls
unfolding middleware
disowned-middleware fancy calls closing h =
    after_handler-disowned fancy closing (writer_run fancy calls (new_writer h))
    ∙ run-disowned fancy calls (new_writer h)

-- For any calls of the handler, with either writer, `Flush`, `Hijack` and `CloseNotify` among them:
-- where the first call that sends the headers is WriteHeader, Write or ReadFrom, or there is none, the
-- client gets the headers set before it, with Connection: close on top exactly where the shutdown has
-- begun at that call, or at the end; where it is a Flush of the fancy writer, those headers and no
-- Connection: close of the middleware; and where the fancy writer's Hijack succeeds before, nothing.
-- The listener is asked to disown the connection exactly where such a Hijack succeeds at any time.
pub middleware_lem :
    (fancy : Bool) (calls : List WriterCall) (closing : Bool) (h : Header)
    → ((middleware fancy calls closing h).sent ≡ answer fancy calls closing h)
      × ((middleware fancy calls closing h).disowned ≡ takes_over fancy calls)
middleware_lem fancy calls closing h =
    (sent-middleware fancy calls closing h, disowned-middleware fancy calls closing h)
