-- ===== src/Web/Middleware.antt =====
-- web/middleware: the standard middleware. A handler is a function on all that its request shares,
-- the `http.Request`, the context, the headers of the response and the rest, `W`, and it may panic
-- with a value. A header maps its canonical name to its values.
pub mod SubRouter
pub mod RequestId
pub mod Headers
pub mod Terminal
pub mod Panics
mod Tests
use goji.Prelude.{
  ℕ, zero, suc, ◌+◌, ◌-◌, ◌%◌, ◌^◌, Bool, true, false, ◌&&◌, Option, none, some, List, [], ◌∷◌,
  ◌++◌, ◌==◌, if◌then◌else◌, take, length,
}
use goji.Prelude.Bytes.{Bytes, codes, has_prefix}
use goji.Prelude.Decimal.{format}
use goji.Web.Context.{
  Context, Match, Value, match_value, text_value, other_value, match_key, get_match, set_env, read,
  delete, lookup,
}

abbrev pub Header : Type 0
Header = List (Bytes × List Bytes)

pub record Request : Type 0 where
  pub path : Bytes
  pub header : Header
  pub remote_addr : Bytes

pub record Shared (H W : Type 0) : Type 0 where
  pub request : Request
  pub context : Context H
  pub response : Header
  pub rest : W

abbrev pub Handler : Type 0 → Type 0 → Type 0
Handler H W = Shared H W → Shared H W × Option ℕ

abbrev pub first_value : Option (List Bytes) → Bytes
first_value (some (v ∷ vs)) = v
first_value _ = []

-- `Header.Get` of a canonical name.
unfoldable pub get : Bytes → Header → Bytes
get k h = first_value (lookup k h)

abbrev pub is_nonempty : Bytes → Bool
is_nonempty [] = false
is_nonempty (c ∷ s) = true

-- `make`, where the map is nil.
abbrev pub made : {V : Type 0} → Option (List (Bytes × V)) → List (Bytes × V)
made none = []
made (some m) = m

abbrev pub url_query_key : Bytes
url_query_key = codes "urlquery"

module _ {H W : Type 0} where
  abbrev pub set_path : Bytes → Shared H W → Shared H W
  set_path p s = record s { request = record s.request { path = p } }

  abbrev pub init_env : Shared H W → Shared H W
  init_env s = record s { context = record s.context { env = some (made s.context.env) } }

  -- `EnvInit`
  abbrev pub env_init : Handler H W → Handler H W
  env_init h s = h (init_env s)

  -- `URLQuery`: `query` is `r.URL.Query()`.
  abbrev pub url_query : (Request → ℕ) → Handler H W → Handler H W
  url_query query h s =
      h (record s { context = set_env url_query_key (other_value (query s.request)) s.context })
