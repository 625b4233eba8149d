-- ===== src/Graceful/Server.antt =====
-- graceful/serve13.go, graceful/serve.go and graceful/server.go: how a server hands its listener and
-- its connections to the listener package. The server of `net/http` is a parameter: it reports the
-- states of a connection to `ConnState`, and its `Serve` returns an error. A connection is one of a
-- shard, and the mode is Automatic from Go 1.3 on and Deadline before.
pub mod Run
pub mod Sane
pub mod Safe
pub mod Drained
mod Tests
use goji.Prelude.{
  ℕ, ◌*◌, Bool, Option, none, some, List, [], ◌∷◌, ◌==◌, if◌then◌else◌, ◌⊎◌, inl, inr,
}
use goji.Prelude.Bytes.{Bytes, codes}
use goji.Graceful.Listener.History.{Call, marks_idle, disowns}
use goji.Graceful.Signal.Loop.{AcceptError, peaceful_error, Config, append_listener}

-- `http.ConnState`
pub data ConnState : Type 0 where
  state_new : ConnState
  state_active : ConnState
  state_idle : ConnState
  state_hijacked : ConnState
  state_closed : ConnState

-- The calls of `connState.Wrap` on the listener package, before the callback of the user.
abbrev pub wrap_calls : ℕ → ConnState → List Call
wrap_calls c state_idle = marks_idle c ∷ []
wrap_calls c state_hijacked = disowns c ∷ []
wrap_calls c _ = []

-- What the user's server says: its address, its read timeout in nanoseconds and its handler.
pub record Server (H : Type 0) : Type 0 where
  pub addr : Bytes
  pub read_timeout : ℕ
  pub handler : Option H

abbrev pub forever : ℕ
forever = 200 * 365 * 24 * 3600 * 1000000000

abbrev pub or_default : Bytes → Bytes → Bytes
or_default d [] = d
or_default d (c ∷ s) = c ∷ s

-- The address of `ListenAndServe`, and of `ListenAndServeTLS`.
abbrev pub listen_addr : {H : Type 0} → Server H → Bytes
listen_addr srv = or_default (codes ":http") srv.addr

abbrev pub listen_addr_tls : {H : Type 0} → Server H → Bytes
listen_addr_tls srv = or_default (codes ":https") srv.addr

module _ {H : Type 0} (middleware : H → H) where
  abbrev map_handler : Option H → Option H
  map_handler none = none
  map_handler (some h) = some (middleware h)

  -- The shadow server of `Serve` before Go 1.3.
  abbrev pub shadow : Server H → Server H
  shadow srv = record srv {
    read_timeout = if srv.read_timeout == 0 then forever else srv.read_timeout;
    handler = map_handler srv.handler;
  }

-- `Server.Serve`: `wrap` is the listener that `listener.Wrap` makes, and `serves` what `Serve` of the
-- shadow server returns, together with `closing` at that time.
abbrev pub serve : ℕ → Bool × Option AcceptError → Config → Option AcceptError × Config
serve wrap (closing, err) c = (peaceful_error closing err, append_listener wrap c)

-- The fields of a `tls.Config` that are read or set here, and the others by their number. Nil is
-- `none`.
pub record TlsConfig : Type 0 where
  pub min_version : ℕ
  pub next_protos : Option (List Bytes)
  pub certificates : List ℕ
  pub others : ℕ

abbrev pub version_tls10 : ℕ
version_tls10 = 769

-- `config` before the certificate is loaded; `cloneTLSConfig` copies every field.
abbrev pub chosen_config : Option TlsConfig → TlsConfig
chosen_config none = record {
  min_version = version_tls10;
  next_protos = none;
  certificates = [];
  others = 0;
}
chosen_config (some config) = config

abbrev pub or_http : Option (List Bytes) → List Bytes
or_http none = codes "http/1.1" ∷ []
or_http (some protos) = protos

-- The configuration that `ListenAndServeTLS` listens with, or the error of `LoadX509KeyPair`.
unfoldable pub tls_config : Option TlsConfig → ℕ ⊎ ℕ → ℕ ⊎ TlsConfig
tls_config supplied (inl err) = inl err
tls_config supplied (inr certificate) =
    let config = chosen_config supplied in
    inr (record config {
      next_protos = some (or_http config.next_protos);
      certificates = certificate ∷ [];
    })
