-- ===== src/Web/RegexpPattern/Groups.antt =====
-- web/regexp_pattern.go: what `match` binds.
use goji.Prelude.{
  ℕ, zero, suc, ◌+◌, ◌≤◌, ◌<◌, ◌≡◌, refl, sym, ◌∙◌, ap, true, false, Option, some, List, [], ◌∷◌,
  get_or, get_elem?, length, if◌then◌else◌, subst, arith,
}
use goji.Prelude.Bytes.{Bytes, str_eq, str_eq_iff}
use goji.Web.Route.{Request}
use goji.Web.Context.{Context, write, read, read-write}
use goji.Web.RegexpPattern.{RegexpPattern, bind_groups, match_found, as_pattern}

abbrev pub name_of : List Bytes → ℕ → Bytes
name_of names i = get_or names i []

-- The groups from `i` on do not touch a key that is none of their names.
bind_groups-kept :
    (names : List Bytes) (i : ℕ) (gs : List Bytes) (m : Option (List (Bytes × Bytes))) (key : Bytes)
    → ((j : ℕ) → i ≤ j → j < i + length gs → str_eq (name_of names j) key ≡ false)
    → read key (bind_groups names i gs m) ≡ read key m
unfolding bind_groups
bind_groups-kept names i [] m key apart = refl
bind_groups-kept names i (g ∷ gs) m key apart =
    bind_groups-kept names (i + 1) gs (write (name_of names i) g m) key
      (λ j lo hi. apart j (omega (arith, lo)) (omega (arith, hi)))
    ∙ read-write (name_of names i) key g m
    ∙ ap (λ b. if b then some g else read key m) (apart i (omega arith) (omega arith))

bind_groups-binds :
    (names : List Bytes) (i : ℕ) (gs : List Bytes) (m : Option (List (Bytes × Bytes))) (k : ℕ)
    (g : Bytes)
    → get_elem? gs k ≡ some g
    → ((a b : ℕ) → a < b → b < i + length gs → str_eq (name_of names b) (name_of names a) ≡ false)
    → read (name_of names (i + k)) (bind_groups names i gs m) ≡ some g
unfolding bind_groups
bind_groups-binds names i [] m k g e apart = cc
bind_groups-binds names i (x ∷ gs) m zero g e apart =
    let key = name_of names i in
    let same : str_eq key key ≡ true = (str_eq_iff key key).1 refl in
    let here : i + 0 ≡ i = omega arith in
    subst (λ n. read (name_of names n) (bind_groups names (i + 1) gs (write key x m)) ≡ some g)
      (sym here)
      (bind_groups-kept names (i + 1) gs (write key x m) key
          (λ j lo hi. apart i j (omega (arith, lo)) (omega (arith, hi)))
        ∙ read-write key key x m
        ∙ ap (λ b. if b then some x else read key m) same
        ∙ e)
bind_groups-binds names i (x ∷ gs) m (suc k) g e apart =
    let here : i + 1 + k ≡ i + suc k = omega arith in
    subst
      (λ n.
        read (name_of names n) (bind_groups names (i + 1) gs (write (name_of names i) x m))
        ≡ some g)
      here
      (bind_groups-binds names (i + 1) gs (write (name_of names i) x m) k g e
        (λ a b lt hi. apart a b lt (omega (arith, hi))))

module _ {H : Type 0} where
  found-binds :
      (p : RegexpPattern) (c : Context H) (whole : Bytes) (gs : List Bytes) (k : ℕ) (g : Bytes)
      → get_elem? gs k ≡ some g
      → ((a b : ℕ)
          → a < b
          → b < 1 + length gs
          → str_eq (name_of p.names b) (name_of p.names a) ≡ false)
      → ((match_found p (some (whole ∷ gs)) c).0 ≡ true)
        × (read (name_of p.names (1 + k)) (match_found p (some (whole ∷ gs)) c).1.url_params
            ≡ some g)
  unfolding match_found
  found-binds p c whole [] k g e apart = cc
  found-binds p c whole (x ∷ gs) k g e apart =
      (refl, bind_groups-binds p.names 1 (x ∷ gs) c.url_params k g e apart)

  -- Where the expression finds a whole match and groups whose names differ, Match succeeds and
  -- leaves the context that Run leaves, and there the text of each group stands under its name.
  pub match_found-binds :
      (find : Bytes → Option (List Bytes)) (p : RegexpPattern) (r : Request) (c : Context H)
      (whole : Bytes) (gs : List Bytes) (k : ℕ) (g : Bytes)
      → find r.path ≡ some (whole ∷ gs)
      → get_elem? gs k ≡ some g
      → ((a b : ℕ)
          → a < b
          → b < 1 + length gs
          → str_eq (name_of p.names b) (name_of p.names a) ≡ false)
      → (((as_pattern find p).match r c).0 ≡ true)
        × (((as_pattern find p).match r c).1 ≡ (as_pattern find p).run r c)
        × (read (name_of p.names (1 + k)) ((as_pattern find p).match r c).1.url_params ≡ some g)
  match_found-binds find p r c whole gs k g f e apart =
      let (hit, bound) = found-binds p c whole gs k g e apart in rw f (hit, refl, bound)
