-- ===== src/Web/Middleware/SubRouter.antt =====
-- web/middleware/subrouter.go: a router that serves the path that another has not matched.
use goji.Prelude.{
  ℕ, Bool, true, false, Option, none, some, List, ◌≡◌, refl, ap, ◌∙◌, inl, inr, arith,
  if◌then◌else◌, Bool-cases,
}
use goji.Prelude.Bytes.{Bytes, codes, str_eq}
use goji.Web.Context.{
  Match, no_match, Value, match_value, match_key, get_match, as_match, read, delete, lookup, insert,
  lookup-insert, lookup-delete,
}
use goji.Web.Middleware.{Shared, Handler, set_path}

-- `c.URLParams["*"]`, or else `c.URLParams["_"]`.
abbrev pub or_else : Option Bytes → Option Bytes → Option Bytes
or_else none q = q
or_else (some p) q = some p

unfoldable pub suffix_of : Option (List (Bytes × Bytes)) → Option Bytes
unfolding lookup
suffix_of none = none
suffix_of (some m) = or_else (lookup (codes "*") m) (lookup (codes "_") m)

module _ {H : Type 0} where
  abbrev pub is_handled : Option H → Bool
  is_handled none = false
  is_handled (some h) = true

  -- `delete(s.c.Env, web.MatchKey)`, which does nothing to a nil map.
  unfoldable pub delete_match : Option (List (Bytes × Value H)) → Option (List (Bytes × Value H))
  unfolding delete
  delete_match none = none
  delete_match (some m) = some (delete match_key m)

  unfoldable pub set_match :
      Bool → Match H → Option (List (Bytes × Value H)) → Option (List (Bytes × Value H))
  unfolding insert
  set_match handled old none = none
  set_match true old (some m) = some (insert match_key (match_value old) m)
  set_match false old (some m) = some (delete match_key m)

module _ {H W : Type 0} where
  -- Before the handler: its path, and no match where there was one.
  unfoldable pub enter : Bytes → Shared H W → Shared H W
  unfolding delete_match get_match
  enter path s =
      let t = set_path path s in
      if is_handled (get_match s.context).handler
      then record t { context = record t.context { env = delete_match t.context.env } }
      else t

  -- The deferred function.
  unfoldable pub leave : Bytes → Match H → Shared H W → Shared H W
  leave oldpath oldmatch s =
      let t = set_path oldpath s in
      record t {
        context = record t.context {
          env = set_match (is_handled oldmatch.handler) oldmatch t.context.env;
        };
      }

  -- A deferred function runs on a panic too.
  abbrev pub deferred : (Shared H W → Shared H W) → Shared H W × Option ℕ → Shared H W × Option ℕ
  deferred f (s, panic) = (f s, panic)

  unfoldable pub serve_suffix : Option Bytes → Handler H W → Handler H W
  unfolding enter leave get_match
  serve_suffix none h s = h s
  serve_suffix (some path) h s =
      deferred (leave s.request.path (get_match s.context)) (h (enter path s))

  -- `subrouter.ServeHTTP`
  unfoldable pub sub_router : Handler H W → Handler H W
  unfolding suffix_of serve_suffix
  sub_router h s = serve_suffix (suffix_of s.context.url_params) h s

module _ {H : Type 0} where
  abbrev pub is_made : Option (List (Bytes × Value H)) → Bool
  is_made none = false
  is_made (some m) = true

  read-set_match :
      (b : Bool) (old : Match H) (k : Bytes) (o : Option (List (Bytes × Value H)))
      → str_eq match_key k ≡ false
      → read k (set_match b old o) ≡ read k o
  unfolding read set_match
  read-set_match b old k none h = refl
  read-set_match true old k (some m) h = lookup-insert match_key k (match_value old) m ∙ rw h refl
  read-set_match false old k (some m) h = lookup-delete match_key k m ∙ rw h refl

  match-set_match :
      (b : Bool) (old : Match H) (o : Option (List (Bytes × Value H)))
      → is_made o ≡ true
      → as_match (read match_key (set_match b old o)) ≡ (if b then old else no_match)
  unfolding read set_match delete
  match-set_match b old none h = cc
  match-set_match true old (some m) h =
      ap as_match (lookup-insert match_key match_key (match_value old) m)
  match-set_match false old (some m) h = ap as_match (lookup-delete match_key match_key m)

  read-delete_match :
      (k : Bytes) (o : Option (List (Bytes × Value H)))
      → read k (delete_match o) ≡ (if str_eq match_key k then none else read k o)
  unfolding read delete_match
  read-delete_match k none = ground arith
  read-delete_match k (some m) = lookup-delete match_key k m

module _ {H W : Type 0} where
  -- What the handler is given.
  enter_if-handler :
      (b : Bool) (t : Shared H W)
      → is_handled (get_match t.context).handler ≡ b
      → (get_match
          (if b
            then record t { context = record t.context { env = delete_match t.context.env } }
            else t).context).handler
        ≡ none
  unfolding get_match
  enter_if-handler true t h =
      ap (λ o. (as_match o).handler) (read-delete_match match_key t.context.env)
  enter_if-handler false t h = not_handled _ h
    where
      not_handled : (o : Option H) → is_handled o ≡ false → o ≡ none
      not_handled none e = refl
      not_handled (some x) e = cc

  enter-handler :
      (path : Bytes) (s : Shared H W) → (get_match (enter path s).context).handler ≡ none
  unfolding enter
  enter-handler path s =
      enter_if-handler (is_handled (get_match s.context).handler) (set_path path s) refl

  enter-path : (path : Bytes) (s : Shared H W) → (enter path s).request.path ≡ path
  unfolding enter
  enter-path path s = elim (Bool-cases (is_handled (get_match s.context).handler)) [
    | inl e ↦ rw e refl
    | inr e ↦ rw e refl
  ]

  -- For a request with a suffix and any handler, also one that panics, that leaves the
  -- environment made: the handler is given the suffix as its path and no match with a handler,
  -- and afterwards the path is the old one, the panic and every other key of the environment are
  -- as the handler left them, and the match is the old one where it had a handler and none
  -- elsewhere.
  pub sub_router_lem :
      (h : Handler H W) (s : Shared H W) (path k : Bytes)
      → suffix_of s.context.url_params ≡ some path
      → str_eq match_key k ≡ false
      → is_made (h (enter path s)).0.context.env ≡ true
      → let inner = enter path s in
        let (t, panic) = h inner in
        let (r, panic') = sub_router h s in
        let old = get_match s.context in
        ((inner.request.path ≡ path) × ((get_match inner.context).handler ≡ none))
        × ((r.request.path ≡ s.request.path)
            × ((panic' ≡ panic)
                × ((read k r.context.env ≡ read k t.context.env)
                    × (get_match r.context ≡ (if is_handled old.handler then old else no_match)))))
  unfolding sub_router serve_suffix leave get_match
  sub_router_lem h s path k e ne m =
      let t = (h (enter path s)).0 in
      let old = get_match s.context in
      (
        (enter-path path s, enter-handler path s),
        rw e (
          refl,
          (refl, (read-set_match _ old k t.context.env ne, match-set_match _ old t.context.env m)),
        ),
      )
