-- ===== src/Web/Middleware/Terminal.antt =====
-- web/middleware/terminal.go, and the lines that logger.go and recoverer.go print. `is_tty` is what
-- `init` finds of the standard output. Package fmt is a parameter: how it prints a status with three
-- digits, a quoted URL, a duration and a panic.
use goji.Prelude.{
  ℕ, ◌*◌, ◌≡◌, refl, sym, ◌∙◌, ap, subst, Bool, true, false, not, ◌||◌, [], ◌∷◌, ◌++◌, ltb, ◌==◌,
  if◌then◌else◌, All,
}
use mathlib.Core.List.{append_assoc, append-nil}
use goji.Prelude.Bytes.{Bytes, codes}

-- `nBlack` to `nWhite` and `bBlack` to `bWhite`, by the digit of the colour.
abbrev n_color : ℕ → Bytes
n_color d = 27 ∷ 91 ∷ 51 ∷ d ∷ 109 ∷ []

abbrev b_color : ℕ → Bytes
b_color d = 27 ∷ 91 ∷ 51 ∷ d ∷ 59 ∷ 49 ∷ 109 ∷ []

abbrev reset : Bytes
reset = 27 ∷ 91 ∷ 48 ∷ 109 ∷ []

-- `cW`: what it appends to the buffer.
abbrev c_w : Bool → Bytes → Bytes → Bytes
c_w true color text = color ++ (text ++ reset)
c_w false color text = text

-- The request's identifier, where there is one.
abbrev print_id : Bool → Bytes → Bytes
print_id is_tty [] = []
print_id is_tty (b ∷ id) = c_w is_tty (b_color b'0') (codes "[" ++ ((b ∷ id) ++ codes "] "))

abbrev status_color : ℕ → Bytes
status_color status =
    if ltb status 200
    then b_color b'4'
    else if ltb status 300
    then b_color b'2'
    else if ltb status 400
    then b_color b'6'
    else if ltb status 500
    then b_color b'3'
    else b_color b'1'

-- The colour of a duration in nanoseconds.
abbrev time_color : ℕ → Bytes
time_color dt =
    if ltb dt (500 * 1000000)
    then n_color b'2'
    else if ltb dt (5 * 1000000000)
    then n_color b'3'
    else n_color b'1'

module _ (is_tty : Bool) where
  -- `printStart`, with the URL as `%q` prints it.
  unfoldable print_start : (req_id method url remote_addr : Bytes) → Bytes
  print_start req_id method url remote_addr =
      print_id is_tty req_id
      ++ (codes "Started "
          ++ (c_w is_tty (b_color b'5') (method ++ codes " ")
              ++ (c_w is_tty (n_color b'4') (url ++ codes " ") ++ (codes "from " ++ remote_addr))))

  -- `printEnd`
  unfoldable print_end : (show_status show_time : ℕ → Bytes) → Bytes → (status dt : ℕ) → Bytes
  print_end show_status show_time req_id status dt =
      print_id is_tty req_id
      ++ (codes "Returning "
          ++ (c_w is_tty (status_color status) (show_status status)
              ++ (codes " in " ++ c_w is_tty (time_color dt) (show_time dt))))

  -- `printPanic`, with the panic as `%+v` prints it.
  unfoldable print_panic : (req_id err : Bytes) → Bytes
  print_panic req_id err =
      print_id is_tty req_id ++ c_w is_tty (b_color b'1') (codes "panic: " ++ err)

-- A text without its colours: from an escape to the next `m` nothing is kept.
unfoldable strip : Bool → Bytes → Bytes
strip inside [] = []
strip inside (b ∷ s) =
    let rest = strip (if inside then not (b == 109) else b == 27) s in
    if inside || b == 27 then rest else b ∷ rest

abbrev IsPlain : Bytes → Type 0
IsPlain s = All (λ b. (b == 27) ≡ false) s

-- `x` without its colours is `y`, before any rest.
record Strips (x y : Bytes) : Type 0 where
  strips : (rest : Bytes) → strip false (x ++ rest) ≡ y ++ strip false rest

Strips-plain : (s : Bytes) → IsPlain s → Strips s s
unfolding strip
Strips-plain [] h = record { strips = λ rest. refl }
Strips-plain (b ∷ s) (h, hs) = record {
  strips = λ rest. rw h (ap (◌∷◌ b) ((Strips-plain s hs).strips rest));
}

Strips-append : (x y x' y' : Bytes) → Strips x y → Strips x' y' → Strips (x ++ x') (y ++ y')
Strips-append x y x' y' f g = record {
  strips = λ rest.
      ap (strip false) (append_assoc x x' rest)
      ∙ f.strips (x' ++ rest)
      ∙ ap (λ s. y ++ s) (g.strips rest)
      ∙ sym (append_assoc y y' (strip false rest));
}

Strips-if : (b : Bool) (x y z : Bytes) → Strips x z → Strips y z → Strips (if b then x else y) z
Strips-if true x y z f g = f
Strips-if false x y z f g = g

Strips-c_w :
    (color text : Bytes) → Strips color [] → IsPlain text → Strips (c_w true color text) text
unfolding strip
Strips-c_w color text c h = subst (Strips (c_w true color text)) (append-nil text) (
    Strips-append color [] (text ++ reset) (text ++ []) c
      (Strips-append text text reset [] (Strips-plain text h) (record { strips = λ rest. refl })))

IsPlain-append : (s t : Bytes) → IsPlain s → IsPlain t → IsPlain (s ++ t)
IsPlain-append [] t hs ht = ht
IsPlain-append (b ∷ s) t hs ht = (hs.0, IsPlain-append s t hs.1 ht)

Strips-id : (id : Bytes) → IsPlain id → Strips (print_id true id) (print_id false id)
unfolding strip
Strips-id [] h = record { strips = λ rest. refl }
Strips-id (b ∷ id) h =
    Strips-c_w (b_color b'0') (codes "[" ++ ((b ∷ id) ++ codes "] "))
      (record { strips = λ rest. refl })
      (refl, IsPlain-append (b ∷ id) (codes "] ") h (refl, (refl, tt)))

status_color-Strips : (status : ℕ) → Strips (status_color status) []
unfolding strip
status_color-Strips status =
    Strips-if (ltb status 200) _ _ [] (record { strips = λ rest. refl })
      (Strips-if (ltb status 300) _ _ [] (record { strips = λ rest. refl })
        (Strips-if (ltb status 400) _ _ [] (record { strips = λ rest. refl })
          (Strips-if (ltb status 500) _ _ [] (record { strips = λ rest. refl })
            (record { strips = λ rest. refl }))))

time_color-Strips : (dt : ℕ) → Strips (time_color dt) []
unfolding strip
time_color-Strips dt =
    Strips-if (ltb dt (500 * 1000000)) _ _ [] (record { strips = λ rest. refl })
      (Strips-if (ltb dt (5 * 1000000000)) _ _ [] (record { strips = λ rest. refl })
        (record { strips = λ rest. refl }))

stripped : (x y : Bytes) → Strips x y → strip false x ≡ y
unfolding strip
stripped x y f = ap (strip false) (sym (append-nil x)) ∙ f.strips [] ∙ append-nil y

-- On a terminal and elsewhere the same line is printed at the end of a request, but for its colours,
-- if no text in it has an escape.
strip-print_end :
    (show_status show_time : ℕ → Bytes) (req_id : Bytes) (status dt : ℕ)
    → IsPlain req_id
    → IsPlain (show_status status)
    → IsPlain (show_time dt)
    → strip false (print_end true show_status show_time req_id status dt)
      ≡ print_end false show_status show_time req_id status dt
unfolding print_end strip
strip-print_end show_status show_time req_id status dt hi hs ht = stripped _ _ (
    Strips-append (print_id true req_id) (print_id false req_id) _ _ (Strips-id req_id hi) (
      Strips-append (codes "Returning ") (codes "Returning ") _ _ (record { strips = λ rest. refl })
        (Strips-append (c_w true (status_color status) (show_status status)) (show_status status) _
          _ (Strips-c_w (status_color status) (show_status status) (status_color-Strips status) hs)
          (Strips-append (codes " in ") (codes " in ") _ _ (record { strips = λ rest. refl })
            (Strips-c_w (time_color dt) (show_time dt) (time_color-Strips dt) ht)))))
