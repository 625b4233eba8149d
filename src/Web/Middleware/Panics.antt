-- ===== src/Web/Middleware/Panics.antt =====
-- web/middleware/recoverer.go and web/middleware/logger.go: what the client is sent when the handler
-- panics or sends nothing. `http_error code` is `http.Error(w, http.StatusText(code), code)`. The
-- logger puts the recording writer of web/mutil in front of the writer `U`; its log is not modelled
-- but for the status that it prints.
use goji.Prelude.{
  ℕ, ◌≡◌, refl, ap, ◌∙◌, Bool, true, false, Option, none, some, List, [], ◌∷◌, All, ◌==◌,
  if◌then◌else◌, inl, inr, Bool-cases,
}
use goji.Prelude.Bytes.{Bytes}
use goji.Web.Middleware.{Shared, Handler}
use goji.Web.WriterProxy.{
  BasicWriter, WriterCall, writes_header, writes, tees, wrap_writer, write_header, writer_run,
  writer_call, first_status, headed, bodied, writer_run-wrap,
}

abbrev pub is_panic : Option ℕ → Bool
is_panic none = false
is_panic (some p) = true

module _ {H W : Type 0} (http_error : ℕ → Shared H W → Shared H W) where
  abbrev pub recovered : Shared H W × Option ℕ → Shared H W × Option ℕ
  recovered (s, none) = (s, none)
  recovered (s, some panic) = (http_error 500 s, none)

  -- `Recoverer`
  unfoldable pub recoverer : Handler H W → Handler H W
  recoverer h s = recovered (h s)

  -- No panic leaves it.
  pub recoverer_lem :
      (h : Handler H W) (s : Shared H W)
      → let (t, panic) = h s in
        ((recoverer h s).1 ≡ none)
        × ((recoverer h s).0 ≡ (if is_panic panic then http_error 500 t else t))
  unfolding recoverer
  recoverer_lem h s = go (h s)
    where
      go :
          (r : Shared H W × Option ℕ)
          → ((recovered r).1 ≡ none)
            × ((recovered r).0 ≡ (if is_panic r.1 then http_error 500 r.0 else r.0))
      go (s, none) = (refl, refl)
      go (s, some p) = (refl, refl)

-- The code of a response is not 0.
abbrev pub HasCode : {T : Type 0} → WriterCall T → Type 0
HasCode (writes_header code) = (code == 0) ≡ false
HasCode (writes buf) = Unit
HasCode (tees t) = Unit

module _ {U T : Type 0} (header : ℕ → U → U) (write : Bytes → U → (ℕ × Option ℕ) × U)
    (tee_write : Bytes → T → Option ℕ × T) (read_from : Bytes → U → (ℕ × Option ℕ) × U) where
  -- The end of `Logger`, which a panic passes by.
  abbrev pub log_end : Bool → BasicWriter U T → BasicWriter U T
  log_end true lw = lw
  log_end false lw =
      if lw.code == 0 then write_header header write tee_write read_from 200 lw else lw

  -- `Logger`, for a handler that makes these calls on its writer.
  unfoldable pub logger : List (WriterCall T) → Bool → U → BasicWriter U T
  logger calls panics u = log_end panics (
      writer_run header write tee_write read_from calls
        (wrap_writer header write tee_write read_from u))

  -- Nothing was sent.
  silent-run :
      (xs : List (WriterCall T)) (u : U) (t : Option T)
      → All HasCode xs
      → (first_status header write tee_write read_from xs == 0) ≡ true
      → let b =
          writer_run header write tee_write read_from xs
            (record { inner = u; wrote_header = false; code = 0; bytes = 0; tee = t }) in
        (b.wrote_header ≡ false) × (b.inner ≡ u)
  unfolding writer_run writer_call first_status
  silent-run [] u t h e = (refl, refl)
  silent-run (writes_header c ∷ xs) u t h e = cc
  silent-run (writes buf ∷ xs) u t h e = cc
  silent-run (tees t' ∷ xs) u t h e = silent-run xs u t' h.1 e

  log_end-silent :
      (b : BasicWriter U T)
      → b.wrote_header ≡ false
      → (b.code == 0) ≡ true
      → let r = log_end false b in (r.code ≡ 200) × (r.inner ≡ header 200 b.inner)
  log_end-silent b w c = rw c (rw w (refl, refl))

  -- Behind Logger, after a handler that does not panic and sends no status 0, the recorded status
  -- is the first one sent, or 200 where nothing was sent, and in that case the writer behind gets
  -- the status 200 and elsewhere what the handler sent.
  pub logger_lem :
      (xs : List (WriterCall T)) (u : U)
      → All HasCode xs
      → let status = first_status header write tee_write read_from xs in
        let lw = logger xs false u in
        (lw.code ≡ (if status == 0 then 200 else status))
        × (lw.inner ≡ (
            if status == 0
            then header 200 u
            else (bodied header write tee_write read_from xs
                (headed header write tee_write read_from xs u)).1))
  unfolding logger
  logger_lem xs u h =
      let status = first_status header write tee_write read_from xs in
      let b =
        writer_run header write tee_write read_from xs
          (wrap_writer header write tee_write read_from u) in
      let (code, inner, sent) = writer_run-wrap header write tee_write read_from xs u in
      elim (Bool-cases (status == 0)) [
        | inl e ↦
            let (w, i) = silent-run xs u none h e in
            let (c, n) = log_end-silent b w (ap (λ k. k == 0) code ∙ e) in
            rw e (c, n ∙ ap (header 200) i)
        | inr e ↦
            let stays : (b.code == 0) ≡ false = ap (λ k. k == 0) code ∙ e in
            rw e (rw stays (code, inner))
      ]
