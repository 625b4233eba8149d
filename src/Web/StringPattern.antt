-- ===== src/Web/StringPattern.antt =====
-- web/string_pattern.go: patterns such as "/u/:name/*", how they are parsed, matched and run.
pub mod Print
pub mod Reads
pub mod Finish
mod Tests
pub mod Parse
pub mod Match
use goji.Prelude.{
  ℕ, zero, suc, ◌+◌, ◌-◌, Bool, true, false, not, ◌&&◌, ◌||◌, Option, none, some, List, [], ◌∷◌,
  ◌++◌, length, take, drop, get_elem?, get_or, ◌==◌, ltb, leb, if◌then◌else◌,
}
use goji.Prelude.Bytes.{Bytes, codes, has_prefix, str_eq}
use goji.Web.Route.{Request, Pattern, string_type}
use goji.Web.Context.{Context, insert}

pub record StringPattern : Type 0 where
  pub raw : Bytes
  pub pats : List Bytes
  pub breaks : List ℕ
  pub literals : List Bytes
  pub wildcard : Bool

-- `m`, the number of bytes in front of the next `bc` or '/'.
unfoldable pub run_length : ℕ → Bytes → ℕ
run_length bc [] = 0
run_length bc (c ∷ s) = if c == bc || c == b'/' then 0 else suc (run_length bc s)

-- The map `matches`, the first entry the oldest.
abbrev pub Params : Type 0
Params = List (Bytes × Bytes)

-- How the loop of `match` ends: it returns false, it comes to its end with the rest of the path, the
-- literals that are left and the map, or an index is out of range.
pub data Walked : Type 0 where
  mismatch : Walked
  walked : Bytes → List Bytes → Params → Walked
  out_of_range : Walked

-- `if !dryrun { matches[pat] = v }`
abbrev pub bind : Bool → Bytes → Bytes → Params → Params
bind dryrun pat v ps = if dryrun then ps else insert pat v ps

-- The loop of `match`: `pats`, `breaks` and `literals` from index `i` on.
unfoldable pub walk_pats : Bool → List Bytes → List ℕ → List Bytes → Bytes → Params → Walked
unfolding run_length
walk_pats dryrun [] bs ls path ps = walked path ls ps
walk_pats dryrun (pat ∷ pats) bs [] path ps = out_of_range
walk_pats dryrun (pat ∷ pats) [] (l ∷ ls) path ps =
    if has_prefix path l then out_of_range else mismatch
walk_pats dryrun (pat ∷ pats) (b ∷ bs) (l ∷ ls) path ps =
    let rest = drop (length l) path in
    let m = run_length b rest in
    let next = walk_pats dryrun pats bs ls (drop m rest) (bind dryrun pat (take m rest) ps) in
    if has_prefix path l then if m == 0 then mismatch else next else mismatch

-- The result of `match`: false, true with the map, or an index or slice out of range.
pub data Matched : Type 0 where
  no_match : Matched
  matched : Params → Matched
  panic : Matched

abbrev pub star : Bytes
star = codes "*"

-- What follows the loop: the last literal, and the wildcard.
unfoldable pub finish : Bool → Bool → Walked → Matched
finish dryrun wildcard mismatch = no_match
finish dryrun wildcard out_of_range = panic
finish dryrun wildcard (walked path [] ps) = panic
finish dryrun true (walked path (l ∷ ls) ps) =
    if has_prefix path l
    then (if dryrun
        then matched ps
        else if length l == 0
        then panic
        else matched (insert star (drop (length l - 1) path) ps))
    else no_match
finish dryrun false (walked path (l ∷ ls) ps) = if str_eq path l then matched ps else no_match

unfoldable pub match_path : StringPattern → Bool → Bytes → Matched
unfolding walk_pats finish insert
match_path s dryrun path =
    finish dryrun s.wildcard (walk_pats dryrun s.pats s.breaks s.literals path [])

-- The end of `match`: the map becomes the context's, or its entries are added to it. The map is nil
-- where the pattern has neither names nor a wildcard.
add_params : Params → Params → Params
add_params [] old = old
add_params ((k, v) ∷ ps) old = add_params ps (insert k v old)

abbrev has_map : StringPattern → Bool
has_map s = s.wildcard || not (length s.pats == 0)

unfoldable pub store : StringPattern → Params → Option Params → Option Params
unfolding add_params
store s ps none = if has_map s then some ps else none
store s ps (some old) = some (add_params ps old)

abbrev pub is_matched : Matched → Bool
is_matched (matched ps) = true
is_matched _ = false

abbrev run_with : {H : Type 0} → StringPattern → Matched → Context H → Context H
run_with s (matched ps) c = record c { url_params = store s ps c.url_params }
run_with s _ c = c

-- `stringPattern.Prefix`; the first literal is always there.
abbrev pub prefix_of : StringPattern → Bytes
prefix_of s = get_or s.literals 0 []

-- The pattern as the router sees it. `Match` is a dry run and leaves the context alone.
abbrev pub as_pattern : {H : Type 0} → StringPattern → Pattern (Context H)
as_pattern s = record {
  raw = string_type s.raw;
  prefix = prefix_of s;
  match = λ r c. (is_matched (match_path s true r.path), c);
  run = λ r c. run_with s (match_path s false r.path) c;
}

-- `bc`
unfoldable pub is_break : ℕ → Bool
is_break c = c == b'/' || (c == b'.' || (c == b';' || c == b','))

-- The length of the longest run of bytes outside of `bc`.
unfoldable pub name_length : Bytes → ℕ
name_length [] = 0
name_length (c ∷ s) = if is_break c then 0 else suc (name_length s)

-- A colon and a name stand here.
unfoldable pub starts_name : Bytes → Bool
starts_name [] = false
starts_name (c ∷ s) = c == b':' && ltb 0 (name_length s)

-- `patternRe.FindAllStringSubmatchIndex(s, -1)`: the bounds `match[2]` and `match[3]` of the names.
-- No match begins inside another, since a name holds no break character.
unfoldable pub find_all : ℕ → Bytes → List (ℕ × ℕ)
find_all pos [] = []
find_all pos (c ∷ s) =
    let more = find_all (pos + 1) s in
    if is_break c && starts_name s then (pos + 2, pos + 2 + name_length (drop 1 s)) ∷ more else more

-- `s[a:b]`
abbrev pub slice : Bytes → ℕ → ℕ → Bytes
slice s a b = take (b - a) (drop a s)

-- The loop of `parseStringPattern`.
abbrev break_at : Option ℕ → ℕ
break_at none = b'/'
break_at (some c) = c

unfoldable pub parse_literals : Bytes → ℕ → List (ℕ × ℕ) → List Bytes
parse_literals s n [] = drop n s ∷ []
parse_literals s n ((a, b) ∷ ms) = slice s n (a - 1) ∷ parse_literals s b ms

unfoldable pub parse_pats : Bytes → List (ℕ × ℕ) → List Bytes
parse_pats s [] = []
parse_pats s ((a, b) ∷ ms) = slice s a b ∷ parse_pats s ms

unfoldable pub parse_breaks : Bytes → List (ℕ × ℕ) → List ℕ
parse_breaks s [] = []
parse_breaks s ((a, b) ∷ ms) =
    (if b == length s then b'/' else break_at (get_elem? s b)) ∷ parse_breaks s ms

-- `strings.HasSuffix(s, t)`
abbrev pub has_suffix : Bytes → Bytes → Bool
has_suffix s t = leb (length t) (length s) && str_eq (drop (length s - length t) s) t

unfoldable pub parse_string_pattern : Bytes → StringPattern
unfolding find_all is_break starts_name name_length parse_literals parse_pats parse_breaks
parse_string_pattern raw =
    let wildcard = has_suffix raw (codes "/*") in
    let s = if wildcard then take (length raw - 1) raw else raw in
    let matches = find_all 0 s in
    record {
      raw = raw;
      pats = parse_pats s matches;
      breaks = parse_breaks s matches;
      literals = parse_literals s 0 matches;
      wildcard = wildcard;
    }
