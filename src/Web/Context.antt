-- ===== src/Web/Context.antt =====
-- web/web.go and web/match.go: the context of a request, and the match kept in its environment.
use goji.Prelude.{ℕ, ◌≡◌, refl, Option, none, some, List, [], ◌∷◌, if◌then◌else◌, arith}
use goji.Prelude.Bytes.{Bytes, codes, str_eq, str_eq_iff}
use goji.Web.Route.{PatternType}

-- `Match`; a nil pattern or handler is `none`.
pub record Match (H : Type 0) : Type 0 where
  pub pattern : Option PatternType
  pub handler : Option H

-- The values that the package puts into `C.Env`, and any other.
pub data Value (H : Type 0) : Type 0 where
  match_value : Match H → Value H
  methods_value : List Bytes → Value H
  text_value : Bytes → Value H
  other_value : ℕ → Value H

-- The struct `C`: both maps may be nil.
pub record Context (H : Type 0) : Type 0 where
  pub url_params : Option (List (Bytes × Bytes))
  pub env : Option (List (Bytes × Value H))

-- A Go map as an association list: a key occurs once.
module _ {V : Type 0} where
  unfoldable pub lookup : Bytes → List (Bytes × V) → Option V
  lookup k [] = none
  lookup k ((j, v) ∷ m) = if str_eq j k then some v else lookup k m

  unfoldable pub insert : Bytes → V → List (Bytes × V) → List (Bytes × V)
  insert k v [] = (k, v) ∷ []
  insert k v ((j, w) ∷ m) = if str_eq j k then (j, v) ∷ m else (j, w) ∷ insert k v m

  unfoldable pub delete : Bytes → List (Bytes × V) → List (Bytes × V)
  delete k [] = []
  delete k ((j, w) ∷ m) = if str_eq j k then delete k m else (j, w) ∷ delete k m

  pub lookup-insert :
      (k j : Bytes) (v : V) (m : List (Bytes × V))
      → lookup j (insert k v m) ≡ (if str_eq k j then some v else lookup j m)
  unfolding lookup insert
  lookup-insert k j v [] = refl
  lookup-insert k j v ((i, w) ∷ m) =
      ground (arith, str_eq_iff k j, str_eq_iff i k, str_eq_iff i j, lookup-insert k j v m)

  pub lookup-delete :
      (k j : Bytes) (m : List (Bytes × V))
      → lookup j (delete k m) ≡ (if str_eq k j then none else lookup j m)
  unfolding lookup delete
  lookup-delete k j [] = ground arith
  lookup-delete k j ((i, w) ∷ m) =
      ground (arith, str_eq_iff k j, str_eq_iff i k, str_eq_iff i j, lookup-delete k j m)

abbrev pub match_key : Bytes
match_key = codes "goji.web.Match"

abbrev pub valid_methods_key : Bytes
valid_methods_key = codes "goji.web.ValidMethods"

abbrev pub no_match : {H : Type 0} → Match H
no_match = record { pattern = none; handler = none }

-- The type assertion `mi.(Match)`.
abbrev pub as_match : {H : Type 0} → Option (Value H) → Match H
as_match (some (match_value m)) = m
as_match _ = no_match

module _ {V : Type 0} where
  -- Reading and writing a map that may be nil; a map is made where a write finds none.
  unfoldable pub read : Bytes → Option (List (Bytes × V)) → Option V
  unfolding lookup
  read k none = none
  read k (some m) = lookup k m

  unfoldable pub write : Bytes → V → Option (List (Bytes × V)) → Option (List (Bytes × V))
  unfolding insert
  write k v none = some ((k, v) ∷ [])
  write k v (some m) = some (insert k v m)

  pub read-write :
      (k j : Bytes) (v : V) (o : Option (List (Bytes × V)))
      → read j (write k v o) ≡ (if str_eq k j then some v else read j o)
  unfolding read write
  read-write k j v none = refl
  read-write k j v (some m) = lookup-insert k j v m

module _ {H : Type 0} where
  -- `GetMatch`
  unfoldable pub get_match : Context H → Match H
  unfolding read
  get_match c = as_match (read match_key c.env)

  -- `c.Env[k] = v`, with a map made first where there is none.
  unfoldable pub set_env : Bytes → Value H → Context H → Context H
  unfolding write
  set_env k v c = record c { env = write k v c.env }

  pub read-set_env :
      (k j : Bytes) (v : Value H) (c : Context H)
      → read j (set_env k v c).env ≡ (if str_eq k j then some v else read j c.env)
  unfolding set_env
  read-set_env k j v c = read-write k j v c.env
