-- ===== src/Web/RegexpPattern.antt =====
-- web/regexp_pattern.go: patterns by a regular expression. `find` stands for the method
-- FindStringSubmatch of package regexp: the texts of the whole match and of the groups, or none.
pub mod Groups
pub mod Sketch
mod Tests
use goji.Prelude.{
  ℕ, zero, suc, ◌+◌, ◌≡◌, ◌≢◌, refl, sym, ◌∙◌, ap, Bool, true, false, Option, none, some, List, [],
  ◌∷◌, get_or, if◌then◌else◌, arith,
}
use goji.Prelude.Bytes.{Bytes, codes, has_prefix, str_eq_iff}
use goji.Web.Route.{Request, Pattern, regexp_type}
use goji.Web.Context.{Context, insert, write, read, read-write}
use goji.Web.Router.Naive.{KeepsPrefix}

-- `regexpPattern`; the expression is known by its source.
pub record RegexpPattern : Type 0 where
  pub re : Bytes
  pub prefix : Bytes
  pub names : List Bytes

module _ (digits : ℕ → Bytes) where
  -- The loop of `parseRegexpPattern`: a group without a name gets "$" and its number, printed by `digits`.
  unfoldable pub group_names : ℕ → List Bytes → List Bytes
  group_names i [] = []
  group_names i ([] ∷ rest) = (b'$' ∷ digits i) ∷ group_names (i + 1) rest
  group_names i ((c ∷ name) ∷ rest) = (c ∷ name) ∷ group_names (i + 1) rest

  -- `parseRegexpPattern`, from what `sketchOnRegex` and `SubexpNames` give.
  abbrev pub parse_regexp_pattern : Bytes → Bytes → List Bytes → RegexpPattern
  parse_regexp_pattern re prefix rnames = record {
    re = re;
    prefix = prefix;
    names = group_names 0 rnames;
  }

-- The loop of `match` over the groups from `i` on. SubexpNames has a name for every group.
unfoldable pub bind_groups :
    List Bytes → ℕ → List Bytes → Option (List (Bytes × Bytes)) → Option (List (Bytes × Bytes))
bind_groups names i [] m = m
bind_groups names i (g ∷ gs) m = bind_groups names (i + 1) gs (write (get_or names i []) g m)

module _ {H : Type 0} where
  -- `regexpPattern.match` on what the expression finds, with `dryrun` false.
  unfoldable pub match_found : RegexpPattern → Option (List Bytes) → Context H → Bool × Context H
  unfolding bind_groups
  match_found p none c = (false, c)
  match_found p (some []) c = (false, c)
  match_found p (some (whole ∷ [])) c = (true, c)
  match_found p (some (whole ∷ g ∷ gs)) c =
      (true, record c { url_params = bind_groups p.names 1 (g ∷ gs) c.url_params })

  -- `regexpPattern`: `Match` and `Run` make the same call.
  abbrev pub as_pattern : (Bytes → Option (List Bytes)) → RegexpPattern → Pattern (Context H)
  as_pattern find p = record {
    raw = regexp_type p.re;
    prefix = p.prefix;
    match = λ r c. match_found p (find r.path) c;
    run = λ r c. (match_found p (find r.path) c).1;
  }

  -- If the expression finds nothing in a path that does not begin with the prefix, the pattern keeps to
  -- its prefix: there `Match` is false and leaves the context alone.
  pub regexp-KeepsPrefix :
      (find : Bytes → Option (List Bytes)) (p : RegexpPattern)
      → ((path : Bytes) → has_prefix path p.prefix ≡ false → find path ≡ none)
      → KeepsPrefix (as_pattern find p)
  unfolding match_found
  regexp-KeepsPrefix find p sound r c miss = ap (λ o. match_found p o c) (sound r.path miss)
