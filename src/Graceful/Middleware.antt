-- ===== src/Graceful/Middleware.antt =====
-- graceful/middleware.go: the writer that asks the client to close the connection during a shutdown.
-- The writer of `net/http` behind it keeps the headers of the first `WriteHeader`, `Write` or
-- `ReadFrom`, or of the first `Flush`; headers set later are not sent, and none after a `Hijack`.
-- Each call comes with the value of `closing` when it is made.
pub mod Answer
mod Tests
use goji.Prelude.{
  ℕ, Bool, true, false, not, ◌&&◌, ◌||◌, Option, none, some, List, [], ◌∷◌, ◌≡◌, refl, ap, ◌∙◌,
  if◌then◌else◌, arith,
}
use goji.Prelude.Bytes.{Bytes, codes}
use goji.Web.Context.{lookup, insert, lookup-insert}

abbrev pub Header : Type 0
Header = List (Bytes × Bytes)

-- The response of `net/http`: the headers so far, those that were sent, whether the handler has taken
-- the connection over; and whether `listener.Disown` was called on it.
pub record Response : Type 0 where
  pub header : Header
  pub sent : Option Header
  pub hijacked : Bool
  pub disowned : Bool

abbrev pub send : Option Header → Header → Header
send none h = h
send (some old) h = old

-- `WriteHeader`, `Write`, `ReadFrom` and `Flush` of the writer behind.
abbrev pub send_header : Response → Response
send_header r = record r { sent = if r.hijacked then r.sent else some (send r.sent r.header) }

-- `basicWriter`
pub record BasicWriter : Type 0 where
  pub inner : Response
  pub header_written : Bool

abbrev pub connection : Bytes
connection = codes "Connection"

-- `maybeClose`
abbrev pub maybe_close : Bool → BasicWriter → BasicWriter
maybe_close closing b = record b {
  header_written = true;
  inner =
      if closing
      then record b.inner { header = insert connection (codes "close") b.inner.header }
      else b.inner;
}

abbrev pub behind : BasicWriter → BasicWriter
behind b = record b { inner = send_header b.inner }

-- `WriteHeader`
abbrev pub write_header : Bool → BasicWriter → BasicWriter
write_header closing b = behind (maybe_close closing b)

-- `Write`, and `ReadFrom` of `fancyWriter`.
abbrev pub write_body : Bool → BasicWriter → BasicWriter
write_body closing b = behind (if not b.header_written then maybe_close closing b else b)

-- `Flush` of `fancyWriter`. A `basicWriter` has no such method, and a handler that asks for it gets
-- none; so too for `Hijack` and `CloseNotify`.
abbrev pub flush : Bool → BasicWriter → BasicWriter
flush fancy b = if fancy then behind b else b

-- `Hijack` of `fancyWriter`: `ok` says whether that of the writer behind succeeds.
abbrev pub hijack : Bool → Bool → BasicWriter → BasicWriter
hijack fancy ok b =
    if fancy && ok
    then record b { inner = record b.inner { hijacked = true; disowned = true } }
    else b

-- `CloseNotify` of `fancyWriter` hands on the channel of the writer behind.
abbrev pub close_notify : BasicWriter → BasicWriter
close_notify b = b

-- What the handler does: set a header of the response, or call the writer.
pub data WriterCall : Type 0 where
  sets : Bytes → Bytes → WriterCall
  writes_header : Bool → WriterCall
  writes : Bool → WriterCall
  reads_from : Bool → WriterCall
  flushes : WriterCall
  hijacks : Bool → WriterCall
  close_notifies : WriterCall

abbrev pub writer_call : Bool → WriterCall → BasicWriter → BasicWriter
writer_call fancy (sets k v) b = record b {
  inner = record b.inner { header = insert k v b.inner.header };
}
writer_call fancy (writes_header closing) b = write_header closing b
writer_call fancy (writes closing) b = write_body closing b
writer_call fancy (reads_from closing) b = write_body closing b
writer_call fancy flushes b = flush fancy b
writer_call fancy (hijacks ok) b = hijack fancy ok b
writer_call fancy close_notifies b = close_notify b

unfoldable pub writer_run : Bool → List WriterCall → BasicWriter → BasicWriter
writer_run fancy [] b = b
writer_run fancy (x ∷ xs) b = writer_run fancy xs (writer_call fancy x b)

-- `middleware`: the handler's calls, and then `maybeClose` where `bw` says that there was none of the
-- writer. A `fancyWriter` has a copy of `bw`, so that `bw` itself says so after any calls. `net/http`
-- sends the headers itself after a handler that has sent nothing and has not taken the connection.
abbrev pub after_handler : Bool → Bool → BasicWriter → BasicWriter
after_handler fancy closing b = if fancy || not b.header_written then maybe_close closing b else b

abbrev pub new_writer : Header → BasicWriter
new_writer h = record {
  inner = record { header = h; sent = none; hijacked = false; disowned = false };
  header_written = false;
}

unfoldable pub middleware : Bool → List WriterCall → Bool → Header → Response
middleware fancy calls closing h =
    (behind (after_handler fancy closing (writer_run fancy calls (new_writer h)))).inner

abbrev pub with_close : Bool → Header → Header
with_close closing h = if closing then insert connection (codes "close") h else h

-- What reaches the client, by the first call that decides it.
unfoldable pub answer : Bool → List WriterCall → Bool → Header → Option Header
answer fancy [] closing h = some (with_close closing h)
answer fancy (sets k v ∷ xs) closing h = answer fancy xs closing (insert k v h)
answer fancy (writes_header c ∷ xs) closing h = some (with_close c h)
answer fancy (writes c ∷ xs) closing h = some (with_close c h)
answer fancy (reads_from c ∷ xs) closing h = some (with_close c h)
answer fancy (flushes ∷ xs) closing h = if fancy then some h else answer fancy xs closing h
answer fancy (hijacks ok ∷ xs) closing h = if fancy && ok then none else answer fancy xs closing h
answer fancy (close_notifies ∷ xs) closing h = answer fancy xs closing h

-- Whether the handler takes the connection over.
unfoldable pub takes_over : Bool → List WriterCall → Bool
takes_over fancy [] = false
takes_over fancy (hijacks ok ∷ xs) = fancy && ok || takes_over fancy xs
takes_over fancy (_ ∷ xs) = takes_over fancy xs
