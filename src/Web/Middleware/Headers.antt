-- ===== src/Web/Middleware/Headers.antt =====
-- web/middleware/nocache.go and web/middleware/realip.go: the middleware that changes headers and the
-- address of the client. The names of headers are canonical, as `net/http` keeps them.
use goji.Prelude.{
  ℕ, ◌≡◌, refl, sym, ap, ◌∙◌, Bool, true, false, ◌||◌, Option, none, some, List, [], ◌∷◌, ◌++◌,
  if◌then◌else◌, All, ◌==◌, arith, Bool-cases, inl, inr,
}
use goji.Prelude.Bytes.{Bytes, codes, str_eq, str_eq_iff, has_prefix}
use goji.Web.Context.{lookup, insert, delete, lookup-insert, lookup-delete}
use goji.Web.Middleware.{Header, Request, Shared, Handler, get, is_nonempty}

abbrev pub etag_headers : List Bytes
etag_headers =
    codes "Etag"
    ∷ codes "If-Modified-Since"
    ∷ codes "If-Match"
    ∷ codes "If-None-Match"
    ∷ codes "If-Range"
    ∷ codes "If-Unmodified-Since"
    ∷ []

abbrev pub no_cache_headers : Bytes → List (Bytes × Bytes)
no_cache_headers epoch =
    (codes "Expires", epoch)
    ∷ (codes "Cache-Control", codes "no-cache, private, max-age=0")
    ∷ (codes "Pragma", codes "no-cache")
    ∷ (codes "X-Accel-Expires", codes "0")
    ∷ []

-- `if r.Header.Get(v) != "" { r.Header.Del(v) }`
abbrev pub drop_header : Bytes → Header → Header
drop_header v h = if is_nonempty (get v h) then delete v h else h

unfoldable pub drop_headers : List Bytes → Header → Header
drop_headers [] h = h
drop_headers (v ∷ vs) h = drop_headers vs (drop_header v h)

-- `w.Header().Set(k, v)` for each pair.
unfoldable pub set_headers : List (Bytes × Bytes) → Header → Header
set_headers [] h = h
set_headers ((k, v) ∷ kvs) h = set_headers kvs (insert k (v ∷ []) h)

module _ {H W : Type 0} where
  -- `NoCache`: `epoch` is the time 0 as the process prints it.
  unfoldable pub no_cache : Bytes → Handler H W → Handler H W
  no_cache epoch h s = h (record s {
    request = record s.request { header = drop_headers etag_headers s.request.header };
    response = set_headers (no_cache_headers epoch) s.response;
  })

abbrev pub xff_name : Bytes
xff_name = codes "X-Forwarded-For"

abbrev pub xri_name : Bytes
xri_name = codes "X-Real-Ip"

-- What stands before the first ", ", and everything where there is none.
unfoldable pub before_comma : Bytes → Bytes
before_comma [] = []
before_comma (c ∷ s) =
    let rest = before_comma s in if has_prefix (c ∷ s) (codes ", ") then [] else c ∷ rest

-- `realIP`
unfoldable pub real_ip_of : Request → Bytes
real_ip_of r =
    let xff = get xff_name r.header in
    if is_nonempty xff then before_comma xff else get xri_name r.header

module _ {H W : Type 0} where
  -- `RealIP`
  unfoldable pub real_ip : Handler H W → Handler H W
  real_ip h s =
      let rip = real_ip_of s.request in
      if is_nonempty rip
      then h (record s { request = record s.request { remote_addr = rip } })
      else h s

get-delete : (k v : Bytes) (h : Header) → get k (delete v h) ≡ (if str_eq v k then [] else get k h)
unfolding get
get-delete k v h = elim (Bool-cases (str_eq v k)) [
  | inl e ↦ rw (lookup-delete v k h) (rw e refl)
  | inr e ↦ rw (lookup-delete v k h) (rw e refl)
]

get-insert :
    (k v x : Bytes) (h : Header) → get k (insert v (x ∷ []) h) ≡ (if str_eq v k then x else get k h)
unfolding get
get-insert k v x h = elim (Bool-cases (str_eq v k)) [
  | inl e ↦ rw (lookup-insert v k (x ∷ []) h) (rw e refl)
  | inr e ↦ rw (lookup-insert v k (x ∷ []) h) (rw e refl)
]

abbrev pub is_named : Bytes → List Bytes → Bool
is_named k [] = false
is_named k (v ∷ vs) = str_eq v k || is_named k vs

-- The value that the pairs give to a name, or else the old value.
abbrev pub given_or : Option Bytes → Bytes → Bytes
given_or none old = old
given_or (some v) old = v

drop_header_if-empty : (b : Bool) (x : Bytes) → is_nonempty x ≡ false → x ≡ (if b then [] else x)
drop_header_if-empty true [] h = refl
drop_header_if-empty true (c ∷ x) h = cc
drop_header_if-empty false x h = refl

get-same : (v k : Bytes) (h : Header) → str_eq v k ≡ true → get v h ≡ get k h
get-same v k h e = ap (λ n. get n h) ((str_eq_iff v k).0 e)

get-drop_header :
    (k v : Bytes) (h : Header) → get k (drop_header v h) ≡ (if str_eq v k then [] else get k h)
get-drop_header k v h = elim (Bool-cases (is_nonempty (get v h))) [
  | inl e ↦ rw e (get-delete k v h)
  | inr e ↦ elim (Bool-cases (str_eq v k)) [
    | inl same ↦ rw e (rw same (sym (get-same v k h same) ∙ drop_header_if-empty true _ e))
    | inr other ↦ rw e (rw other refl)
  ]
]

get-drop_headers :
    (k : Bytes) (vs : List Bytes) (h : Header)
    → get k (drop_headers vs h) ≡ (if is_named k vs then [] else get k h)
unfolding drop_headers
get-drop_headers k [] h = refl
get-drop_headers k (v ∷ vs) h =
    ground (arith, get-drop_headers k vs (drop_header v h), get-drop_header k v h)

-- No name is given twice.
abbrev pub NoRepeat : List (Bytes × Bytes) → Type 0
NoRepeat [] = Unit
NoRepeat ((k, v) ∷ kvs) = (lookup k kvs ≡ none) × NoRepeat kvs

get-set_headers :
    (k : Bytes) (kvs : List (Bytes × Bytes)) (h : Header)
    → NoRepeat kvs
    → get k (set_headers kvs h) ≡ given_or (lookup k kvs) (get k h)
unfolding set_headers lookup
get-set_headers k [] h n = refl
get-set_headers k ((j, v) ∷ kvs) h n = elim (Bool-cases (str_eq j k)) [
  | inl e ↦
      let absent : lookup k kvs ≡ none =
        ap (λ x. lookup x kvs) (sym ((str_eq_iff j k).0 e)) ∙ n.0 in
      rw e (
        get-set_headers k kvs (insert j (v ∷ []) h) n.1
        ∙ rw absent (get-insert k j v h ∙ rw e refl))
  | inr e ↦ rw e (
      get-set_headers k kvs (insert j (v ∷ []) h) n.1
      ∙ ap (given_or (lookup k kvs)) (get-insert k j v h ∙ rw e refl))
]

module _ {H W : Type 0} where
  -- What the handler behind `NoCache` reads.
  pub no_cache_lem :
      (epoch k : Bytes) (s : Shared H W)
      → let t = (no_cache epoch (λ t. (t, none)) s).0 in
        (get k t.request.header ≡ (if is_named k etag_headers then [] else get k s.request.header))
        × (get k t.response ≡ given_or (lookup k (no_cache_headers epoch)) (get k s.response))
  unfolding no_cache lookup
  no_cache_lem epoch k s = (
    get-drop_headers k etag_headers s.request.header,
    get-set_headers k (no_cache_headers epoch) s.response (refl, (refl, (refl, (refl, tt)))),
  )

before_comma-append :
    (ip rest : Bytes)
    → All (λ c. (c == b',') ≡ false) ip
    → before_comma (ip ++ b',' ∷ b' ' ∷ rest) ≡ ip
unfolding before_comma
before_comma-append [] rest h = refl
before_comma-append (c ∷ ip) rest h = rw h.0 (ap (◌∷◌ c) (before_comma-append ip rest h.1))

before_comma-All : (ip : Bytes) → All (λ c. (c == b',') ≡ false) ip → before_comma ip ≡ ip
unfolding before_comma
before_comma-All [] h = refl
before_comma-All (c ∷ ip) h = rw h.0 (ap (◌∷◌ c) (before_comma-All ip h.1))

-- The addresses of a list, as proxies join them.
abbrev pub join_hops : Bytes → List Bytes → Bytes
join_hops ip [] = ip
join_hops ip (hop ∷ hops) = ip ++ b',' ∷ b' ' ∷ join_hops hop hops

before_comma-join_hops :
    (ip : Bytes) (hops : List Bytes)
    → All (λ c. (c == b',') ≡ false) ip
    → before_comma (join_hops ip hops) ≡ ip
before_comma-join_hops ip [] h = before_comma-All ip h
before_comma-join_hops ip (hop ∷ hops) h = before_comma-append ip _ h

is_nonempty-join_hops :
    (c : ℕ) (ip : Bytes) (hops : List Bytes) → is_nonempty (join_hops (c ∷ ip) hops) ≡ true
is_nonempty-join_hops c ip [] = refl
is_nonempty-join_hops c ip (hop ∷ hops) = refl

module _ {H W : Type 0} where
  -- The address that the handler sees.
  pub real_ip-forwarded :
      (s : Shared H W) (c : ℕ) (ip : Bytes) (hops : List Bytes)
      → All (λ c. (c == b',') ≡ false) (c ∷ ip)
      → get xff_name s.request.header ≡ join_hops (c ∷ ip) hops
      → (real_ip (λ t. (t, none)) s).0.request.remote_addr ≡ c ∷ ip
  unfolding real_ip real_ip_of
  real_ip-forwarded s c ip hops h e =
      rw e (rw (is_nonempty-join_hops c ip hops) (rw (before_comma-join_hops (c ∷ ip) hops h) refl))
