-- ===== src/Web/RegexpPattern/Tests.antt =====
-- web/regexp_pattern.go: a pattern with one group, for the expression "^/n/(.*)$".
use goji.Prelude.{
  ℕ, zero, suc, ◌<◌, false, arith, ◌≡◌, refl, true, Option, none, some, List, [], ◌∷◌, drop,
  if◌then◌else◌,
}
use goji.Prelude.Bytes.{Bytes, codes, str_eq, has_prefix}
use goji.Web.Route.{Request}
use goji.Web.Context.{Context, read}
use goji.Web.RegexpPattern.{RegexpPattern, as_pattern}
use goji.Web.RegexpPattern.Groups.{name_of, match_found-binds}

abbrev numbered : RegexpPattern
numbered = record {
  re = codes "^/n/(.*)$";
  prefix = codes "/n/";
  names = codes "$0" ∷ codes "$1" ∷ [];
}

abbrev finder : Bytes → Option (List Bytes)
finder path = if has_prefix path (codes "/n/") then some (path ∷ drop 3 path ∷ []) else none

abbrev seven : Request
seven = record { method = codes "GET"; path = codes "/n/7" }

abbrev blank : Context ℕ
blank = record { url_params = none; env = none }

apart :
    (a b : ℕ) → a < b → b < 2 → str_eq (name_of numbered.names b) (name_of numbered.names a) ≡ false
apart zero (suc zero) lt le = refl
apart a zero lt le = absurd (omega (arith, lt))
apart (suc a) (suc zero) lt le = absurd (omega (arith, lt))
apart a (suc (suc b)) lt le = absurd (omega (arith, le))

match_found-binds_example :
    (((as_pattern finder numbered).match seven blank).0 ≡ true)
    × (((as_pattern finder numbered).match seven blank).1
        ≡ (as_pattern finder numbered).run seven blank)
    × (read (codes "$1") ((as_pattern finder numbered).match seven blank).1.url_params
        ≡ some (codes "7"))
match_found-binds_example =
    match_found-binds finder numbered seven blank (codes "/n/7") (codes "7" ∷ []) 0 (codes "7") refl
      refl apart
