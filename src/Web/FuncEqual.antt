-- ===== src/Web/FuncEqual.antt =====
-- web/func_equal.go: the equality of the values that a middleware stack is asked for.
use goji.Prelude.{ℕ, ◌≡◌, ◌↔◌, Bool, true, ◌&&◌, ◌==◌, arith}

-- What `InterfaceData` gives of an interface value: the pointer to its type and the pointer to its
-- data.
pub record InterfaceData : Type 0 where
  pub type_word : ℕ
  pub data_word : ℕ

-- `funcEqual`
abbrev pub func_equal : InterfaceData → InterfaceData → Bool
func_equal a b = a.type_word == b.type_word && a.data_word == b.data_word

-- Two values are equal just when both pointers are.
pub func_equal_iff :
    (a b : InterfaceData)
    → (func_equal a b ≡ true) ↔ (a.type_word ≡ b.type_word) × (a.data_word ≡ b.data_word)
func_equal_iff a b = (λ e. (ground (arith, e), ground (arith, e)), λ e. ground (arith, e))
