-- ===== src/Web/Mux/Verbs.antt =====
-- web/mux.go: what the verb methods accept.
use Prim.Native.Nat.{bit_and}
use goji.Prelude.{
  ◌≡◌, refl, sym, ◌∙◌, ap, subst, Bool, true, false, not, ◌||◌, none, some, List, [], ◌∷◌, ◌==◌,
  Bool-cases, inl, inr, ◌⊎◌, All,
}
use goji.Prelude.Bytes.{Bytes, codes, str_eq, str_eq_iff}
use goji.Web.Method.{Method, m_idk, valid_methods_map, find_method, or_idk, http_method}
use goji.Web.Mux.{
  Verb, any, connect, delete, get, head, options, patch, post, put, trace, methods_of,
}

-- The test of `matchRoute` on the methods of a route.
abbrev pub accepts : Verb → Bytes → Bool
accepts v name = not (bit_and (methods_of v) (http_method name) == 0)

-- The names of the methods that a verb is documented to serve.
abbrev pub serves : Verb → Bytes → Bool
serves any name = true
serves connect name = str_eq (codes "CONNECT") name
serves delete name = str_eq (codes "DELETE") name
serves get name = str_eq (codes "GET") name || str_eq (codes "HEAD") name
serves head name = str_eq (codes "HEAD") name
serves options name = str_eq (codes "OPTIONS") name
serves patch name = str_eq (codes "PATCH") name
serves post name = str_eq (codes "POST") name
serves put name = str_eq (codes "PUT") name
serves trace name = str_eq (codes "TRACE") name

-- The verb's methods have the bit of an entry where it serves its name.
abbrev Agrees : Verb → Bytes × Method → Type 0
Agrees v (name, m) = not (bit_and (methods_of v) m == 0) ≡ serves v name

All-Agrees : (v : Verb) → All (Agrees v) valid_methods_map
All-Agrees any = (refl, (refl, (refl, (refl, (refl, (refl, (refl, (refl, (refl, tt)))))))))
All-Agrees connect = (refl, (refl, (refl, (refl, (refl, (refl, (refl, (refl, (refl, tt)))))))))
All-Agrees delete = (refl, (refl, (refl, (refl, (refl, (refl, (refl, (refl, (refl, tt)))))))))
All-Agrees get = (refl, (refl, (refl, (refl, (refl, (refl, (refl, (refl, (refl, tt)))))))))
All-Agrees head = (refl, (refl, (refl, (refl, (refl, (refl, (refl, (refl, (refl, tt)))))))))
All-Agrees options = (refl, (refl, (refl, (refl, (refl, (refl, (refl, (refl, (refl, tt)))))))))
All-Agrees patch = (refl, (refl, (refl, (refl, (refl, (refl, (refl, (refl, (refl, tt)))))))))
All-Agrees post = (refl, (refl, (refl, (refl, (refl, (refl, (refl, (refl, (refl, tt)))))))))
All-Agrees put = (refl, (refl, (refl, (refl, (refl, (refl, (refl, (refl, (refl, tt)))))))))
All-Agrees trace = (refl, (refl, (refl, (refl, (refl, (refl, (refl, (refl, (refl, tt)))))))))

-- A name is found with its entry, or no entry has it.
find_method-All :
    (P : Bytes × Method → Type 0) (name : Bytes) (l : List (Bytes × Method))
    → All P l
    → ((m : Method) × (find_method name l ≡ some m) × P (name, m))
      ⊎ ((find_method name l ≡ none) × All (λ e. str_eq e.0 name ≡ false) l)
unfolding find_method
find_method-All P name [] h = inr (refl, tt)
find_method-All P name ((n, m) ∷ l) (h, hs) = elim (Bool-cases (str_eq n name)) [
  | inl same ↦ inl (m, rw same, subst (λ k. P (k, m)) ((str_eq_iff n name).0 same) h)
  | inr other ↦ elim (find_method-All P name l hs) [
    | inl (k, e, p) ↦ inl (k, rw other e, p)
    | inr (e, none_of) ↦ inr (rw other e, (other, none_of))
  ]
]

unlisted :
    (v : Verb) (name : Bytes)
    → All (λ e. str_eq e.0 name ≡ false) valid_methods_map
    → not (bit_and (methods_of v) m_idk == 0) ≡ serves v name
unlisted any name h = refl
unlisted connect name h = sym h.0
unlisted delete name h = sym h.1.0
unlisted get name h = rw (h.1.1.0, h.1.1.1.0)
unlisted head name h = sym h.1.1.1.0
unlisted options name h = sym h.1.1.1.1.0
unlisted patch name h = sym h.1.1.1.1.1.0
unlisted post name h = sym h.1.1.1.1.1.1.0
unlisted put name h = sym h.1.1.1.1.1.1.1.0
unlisted trace name h = sym h.1.1.1.1.1.1.1.1.0

-- A verb method accepts a request exactly where it serves the request's method: Handle every method,
-- the unknown ones included, Get the methods GET and HEAD, and each other verb the method of its name.
pub accepts-serves : (v : Verb) (name : Bytes) → accepts v name ≡ serves v name
unfolding http_method
accepts-serves v name = elim (find_method-All (Agrees v) name valid_methods_map (All-Agrees v)) [
  | inl (m, e, agrees) ↦ ap (λ o. not (bit_and (methods_of v) (or_idk o) == 0)) e ∙ agrees
  | inr (e, none_of) ↦
      ap (λ o. not (bit_and (methods_of v) (or_idk o) == 0)) e ∙ unlisted v name none_of
]
