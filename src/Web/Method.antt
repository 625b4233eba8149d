-- ===== src/Web/Method.antt =====
-- web/router.go: the bits of the HTTP methods.
use goji.Prelude.{ℕ, ◌≡◌, refl, Option, none, some, List, [], ◌∷◌, if◌then◌else◌}
use goji.Prelude.Bytes.{Bytes, codes, str_eq}

-- A set of HTTP methods, as the bits of an integer.
abbrev pub Method : Type 0
Method = ℕ

abbrev pub m_connect : Method
m_connect = 1

abbrev pub m_delete : Method
m_delete = 2

abbrev pub m_get : Method
m_get = 4

abbrev pub m_head : Method
m_head = 8

abbrev pub m_options : Method
m_options = 16

abbrev pub m_patch : Method
m_patch = 32

abbrev pub m_post : Method
m_post = 64

abbrev pub m_put : Method
m_put = 128

abbrev pub m_trace : Method
m_trace = 256

abbrev pub m_idk : Method
m_idk = 512

-- The union of all of them.
abbrev pub m_all : Method
m_all = 1023

abbrev pub valid_methods_map : List (Bytes × Method)
valid_methods_map =
    (codes "CONNECT", m_connect)
    ∷ (codes "DELETE", m_delete)
    ∷ (codes "GET", m_get)
    ∷ (codes "HEAD", m_head)
    ∷ (codes "OPTIONS", m_options)
    ∷ (codes "PATCH", m_patch)
    ∷ (codes "POST", m_post)
    ∷ (codes "PUT", m_put)
    ∷ (codes "TRACE", m_trace)
    ∷ []

unfoldable pub find_method : Bytes → List (Bytes × Method) → Option Method
find_method name [] = none
find_method name ((n, m) ∷ rest) = if str_eq n name then some m else find_method name rest

abbrev pub or_idk : Option Method → Method
or_idk none = m_idk
or_idk (some m) = m

unfoldable pub http_method : Bytes → Method
unfolding find_method
http_method name = or_idk (find_method name valid_methods_map)

http_method_get : http_method (codes "GET") ≡ 4
unfolding http_method
http_method_get = refl

http_method_other : http_method (codes "GETS") ≡ 512
unfolding http_method
http_method_other = refl
