-- ===== src/Web/WriterProxy.antt =====
-- web/mutil/writer_proxy.go: the writer that records the status and the number of bytes. The writer
-- behind it, `U`, and the writer that it tees to, `T`, are parameters: what their calls return and
-- how they change. An error is a number; nil is `none`.
pub mod Wrapping
mod Tests
use goji.Prelude.{
  ℕ, ◌+◌, ◌≡◌, refl, sym, ◌∙◌, ap, Bool, true, false, Option, none, some, List, [], ◌∷◌, ◌++◌, take,
  if◌then◌else◌, arith,
}
use goji.Prelude.Bytes.{Bytes}

-- `basicWriter`
pub record BasicWriter (U T : Type 0) : Type 0 where
  pub inner : U
  pub wrote_header : Bool
  pub code : ℕ
  pub bytes : ℕ
  pub tee : Option T

-- The calls on the proxy that change it.
pub data WriterCall (T : Type 0) : Type 0 where
  writes_header : ℕ → WriterCall T
  writes : Bytes → WriterCall T
  tees : Option T → WriterCall T

abbrev first_error : Option ℕ → Option ℕ → Option ℕ
first_error none e = e
first_error (some e) e' = some e

module _ {U T : Type 0} (header : ℕ → U → U) (write : Bytes → U → (ℕ × Option ℕ) × U)
    (tee_write : Bytes → T → Option ℕ × T) (read_from : Bytes → U → (ℕ × Option ℕ) × U) where
  -- `WrapWriter`
  abbrev pub wrap_writer : U → BasicWriter U T
  wrap_writer u = record { inner = u; wrote_header = false; code = 0; bytes = 0; tee = none }

  -- `basicWriter.WriteHeader`
  abbrev pub write_header : ℕ → BasicWriter U T → BasicWriter U T
  write_header code b =
      if b.wrote_header
      then b
      else record b { code = code; wrote_header = true; inner = header code b.inner }

  -- `if b.tee != nil { ... }`
  abbrev write_tee : Bytes → Option ℕ → Option T → Option ℕ × Option T
  write_tee buf err none = (err, none)
  write_tee buf err (some t) = let (err2, t') = tee_write buf t in (first_error err err2, some t')

  -- `basicWriter.Write`
  unfoldable pub write_bytes : Bytes → BasicWriter U T → (ℕ × Option ℕ) × BasicWriter U T
  write_bytes buf b =
      let b1 = write_header 200 b in
      let ((n, err), u) = write buf b1.inner in
      let (err', t) = write_tee (take n buf) err b1.tee in
      ((n, err'), record b1 { inner = u; tee = t; bytes = b1.bytes + n })

  -- `io.Copy(&f.basicWriter, r)`, for a reader that gives its data in chunks and a writer that takes
  -- them whole.
  copy_chunks : List Bytes → BasicWriter U T → (ℕ × Option ℕ) × BasicWriter U T
  unfolding write_bytes
  copy_chunks [] b = ((0, none), b)
  copy_chunks (buf ∷ bufs) b =
      let ((n, err), b') = write_bytes buf b in
      let ((m, err'), b'') = copy_chunks bufs b' in
      elim err [ none ↦ ((n + m, err'), b'') | some e ↦ ((n, some e), b') ]

  joined : List Bytes → Bytes
  joined [] = []
  joined (b ∷ bs) = b ++ joined bs

  -- `fancyWriter.ReadFrom`
  unfoldable pub read_from_chunks : List Bytes → BasicWriter U T → (ℕ × Option ℕ) × BasicWriter U T
  unfolding copy_chunks joined
  read_from_chunks bufs b = elim b.tee [
    | some t ↦ copy_chunks bufs b
    | none ↦
        let b1 = write_header 200 b in
        let (r, u) = read_from (joined bufs) b1.inner in (r, record b1 { inner = u })
  ]

  unfoldable pub writer_call : WriterCall T → BasicWriter U T → BasicWriter U T
  unfolding write_bytes
  writer_call (writes_header code) b = write_header code b
  writer_call (writes buf) b = (write_bytes buf b).1
  writer_call (tees t) b = record b { tee = t }

  unfoldable pub writer_run : List (WriterCall T) → BasicWriter U T → BasicWriter U T
  unfolding writer_call
  writer_run [] b = b
  writer_run (x ∷ xs) b = writer_run xs (writer_call x b)

  -- The first status that the calls send, or 0.
  unfoldable pub first_status : List (WriterCall T) → ℕ
  first_status [] = 0
  first_status (writes_header code ∷ xs) = code
  first_status (writes buf ∷ xs) = 200
  first_status (tees t ∷ xs) = first_status xs

  -- The writer behind, with that status sent.
  unfoldable pub headed : List (WriterCall T) → U → U
  headed [] u = u
  headed (writes_header code ∷ xs) u = header code u
  headed (writes buf ∷ xs) u = header 200 u
  headed (tees t ∷ xs) u = headed xs u

  -- The writes to the body, on the writer behind: what it is afterwards, and how many bytes it took.
  unfoldable pub bodied : List (WriterCall T) → U → ℕ × U
  bodied [] u = (0, u)
  bodied (writes buf ∷ xs) u =
      let ((n, err), u') = write buf u in let (m, u'') = bodied xs u' in (n + m, u'')
  bodied (_ ∷ xs) u = bodied xs u

  run-written :
      (xs : List (WriterCall T)) (u : U) (code n : ℕ) (t : Option T)
      → let b =
          writer_run xs
            (record { inner = u; wrote_header = true; code = code; bytes = n; tee = t }) in
        (b.code ≡ code) × (b.inner ≡ (bodied xs u).1) × (b.bytes ≡ n + (bodied xs u).0)
  unfolding writer_run writer_call write_bytes bodied
  run-written [] u code n t = (refl, refl, omega arith)
  run-written (writes_header c ∷ xs) u code n t = run-written xs u code n t
  run-written (writes buf ∷ xs) u code n t =
      let k = (write buf u).0.0 in
      let (e, i, h) =
        run-written xs (write buf u).1 code (n + k)
          (write_tee (take k buf) (write buf u).0.1 t).1 in
      (e, i, omega (arith, h))
  run-written (tees t' ∷ xs) u code n t = run-written xs u code n t'

  fresh-run :
      (xs : List (WriterCall T)) (u : U) (t : Option T)
      → let b =
          writer_run xs
            (record { inner = u; wrote_header = false; code = 0; bytes = 0; tee = t }) in
        (b.code ≡ first_status xs)
        × (b.inner ≡ (bodied xs (headed xs u)).1)
        × (b.bytes ≡ (bodied xs (headed xs u)).0)
  unfolding writer_run writer_call write_bytes bodied headed first_status
  fresh-run [] u t = (refl, refl, refl)
  fresh-run (writes_header c ∷ xs) u t =
      let (e, i, h) = run-written xs (header c u) c 0 t in (e, i, omega (arith, h))
  fresh-run (writes buf ∷ xs) u t =
      let u' = header 200 u in
      let k = (write buf u').0.0 in
      let (e, i, h) =
        run-written xs (write buf u').1 200 (0 + k)
          (write_tee (take k buf) (write buf u').0.1 t).1 in
      (e, i, omega (arith, h))
  fresh-run (tees t' ∷ xs) u t = fresh-run xs u t'

  -- For any calls of `WriteHeader`, `Write` and `Tee` on a new proxy and any writer behind it:
  -- `Status` is the first status sent, 200 if a write came first and 0 if nothing was sent; the writer
  -- behind gets this status once, and then the writes as they are; and `BytesWritten` is the sum of
  -- the bytes that it took.
  pub writer_run-wrap :
      (xs : List (WriterCall T)) (u : U)
      → ((writer_run xs (wrap_writer u)).code ≡ first_status xs)
        × ((writer_run xs (wrap_writer u)).inner ≡ (bodied xs (headed xs u)).1)
        × ((writer_run xs (wrap_writer u)).bytes ≡ (bodied xs (headed xs u)).0)
  writer_run-wrap xs u = fresh-run xs u none
