-- ===== src/Web/StringPattern/Tests.antt =====
-- web/string_pattern.go: runs of the string patterns of the documentation.
use goji.Prelude.{ℕ, ◌≡◌, ◌≢◌, ◌↔◌, refl, true, false, [], ◌∷◌}
use goji.Prelude.Bytes.{codes}
use goji.Web.Router.Naive.{KeepsPrefix}
use goji.Web.StringPattern.{
  StringPattern, match_path, matched, no_match, panic, is_matched, as_pattern, parse_string_pattern,
}
use goji.Web.StringPattern.Print.{print_pattern, print-parse_string_pattern}
use goji.Web.StringPattern.Finish.{IsWellFormed, IsReading}
use goji.Web.StringPattern.Match.{match_path_iff, match_path-agree, as_pattern-KeepsPrefix}
use goji.Web.StringPattern.Parse.{parse_string_pattern-IsWellFormed}

strings : Unit {0}
unfolding parse_string_pattern match_path
strings = tt

wildcard_tail :
    match_path (parse_string_pattern (codes "/u/:name/*")) false (codes "/u/carl/projects/123")
    ≡ matched ((codes "name", codes "carl") ∷ (codes "*", codes "/projects/123") ∷ [])
unfolding strings
wildcard_tail = refl

no_slash : match_path (parse_string_pattern (codes "/u/:name/*")) false (codes "/u/carl") ≡ no_match
unfolding strings
no_slash = refl

extension :
    match_path (parse_string_pattern (codes "/a/:file.:ext")) false (codes "/a/b.tar.gz")
    ≡ matched ((codes "file", codes "b") ∷ (codes "ext", codes "tar.gz") ∷ [])
unfolding strings
extension = refl

parsed : parse_string_pattern (codes "/:a.:b/c") ≡ record {
  raw = codes "/:a.:b/c";
  pats = codes "a" ∷ codes "b" ∷ [];
  breaks = b'.' ∷ b'/' ∷ [];
  literals = codes "/" ∷ codes "." ∷ codes "/c" ∷ [];
  wildcard = false;
}
unfolding strings
parsed = refl

-- What `parseStringPattern` makes of "/u/:name/*".
abbrev user_files : StringPattern
user_files = record {
  raw = codes "/u/:name/*";
  pats = codes "name" ∷ [];
  breaks = b'/' ∷ [];
  literals = codes "/u/" ∷ codes "/" ∷ [];
  wildcard = true;
}

user_files_parsed : parse_string_pattern (codes "/u/:name/*") ≡ user_files
unfolding strings
user_files_parsed = refl

user_files_well : IsWellFormed user_files
user_files_well = record { one_more = refl; each_breaks = refl; star_tail = λ w e. cc }

match_path_iff_example :
    (match_path user_files false (codes "/u/carl/x")
      ≡ matched ((codes "name", codes "carl") ∷ (codes "*", codes "/x") ∷ []))
    ↔ IsReading user_files
        (codes "/u/carl/x")
        ((codes "name", codes "carl") ∷ (codes "*", codes "/x") ∷ [])
match_path_iff_example =
    match_path_iff user_files (codes "/u/carl/x")
      ((codes "name", codes "carl") ∷ (codes "*", codes "/x") ∷ []) user_files_well

match_path-agree_example :
    (match_path user_files true (codes "/u/carl") ≢ panic)
    × (match_path user_files false (codes "/u/carl") ≢ panic)
    × (is_matched (match_path user_files true (codes "/u/carl"))
        ≡ is_matched (match_path user_files false (codes "/u/carl")))
match_path-agree_example = match_path-agree user_files (codes "/u/carl") user_files_well

as_pattern-KeepsPrefix_example : KeepsPrefix (as_pattern {H = ℕ} user_files)
as_pattern-KeepsPrefix_example = as_pattern-KeepsPrefix ℕ user_files

parse_string_pattern-IsWellFormed_example : IsWellFormed (parse_string_pattern (codes "/a/:b.:c/*"))
parse_string_pattern-IsWellFormed_example = parse_string_pattern-IsWellFormed (codes "/a/:b.:c/*")

print-parse_string_pattern_example :
    print_pattern (parse_string_pattern (codes "/u/:name.:ext/*")) ≡ codes "/u/:name.:ext/*"
print-parse_string_pattern_example = print-parse_string_pattern (codes "/u/:name.:ext/*")
