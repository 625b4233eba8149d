-- ===== src/Graceful/Signal/Invariant/Passed.antt =====
-- graceful/signal.go: the bodies that have ended when a call of `shutdown` is at a `Do`.
use goji.Prelude.{
  ℕ, zero, suc, Bool, true, false, some, List, [], ◌∷◌, All, All-map, ◌≡◌, ap, subst, inl, inr,
  Bool-cases, get_elem?,
}
use mathlib.Core.Option.{some-injective}
use goji.Graceful.Signal.{is_done, Shared, closing_once}
use goji.Graceful.Signal.Threads.{
  Pc, at_pre, at_close, at_post, at_notify, returned, Thread, next_pc, set_thread,
}
use goji.Graceful.Signal.Invariant.Grows.{Grows}

-- The bodies that have ended when a call of `shutdown` is at this `Do`.
abbrev pub BothPassed : Shared → Bool → Type 0
BothPassed s force = (is_done s.pre_once ≡ true) × (is_done (closing_once force s) ≡ true)

abbrev pub Passed : Shared → Bool → Pc → Type 0
Passed s force at_pre = Unit
Passed s force at_close = is_done s.pre_once ≡ true
Passed s force at_post = BothPassed s force
Passed s force at_notify = BothPassed s force × (is_done s.post_once ≡ true)
Passed s force returned =
    (BothPassed s force × (is_done s.post_once ≡ true)) × (is_done s.notify_once ≡ true)

Grows-closing :
    {s t : Shared}
    → Grows s t
    → (force : Bool) → is_done (closing_once force s) ≡ true
    → is_done (closing_once force t) ≡ true
Grows-closing g true = g.force
Grows-closing g false = g.close

Grows-BothPassed :
    {s t : Shared} → Grows s t → (force : Bool) → BothPassed s force → BothPassed t force
Grows-BothPassed g force h = (g.pre h.0, Grows-closing g force h.1)

pub Grows-Passed :
    {s t : Shared} → Grows s t → (force : Bool) (p : Pc) → Passed s force p → Passed t force p
Grows-Passed g force at_pre h = tt
Grows-Passed g force at_close h = g.pre h
Grows-Passed g force at_post h = Grows-BothPassed g force h
Grows-Passed g force at_notify h = (Grows-BothPassed g force h.0, g.post h.1)
Grows-Passed g force returned h = ((Grows-BothPassed g force h.0.0, g.post h.0.1), g.notify h.1)

pub next_pc-Passed :
    (s : Shared) (force : Bool) (p : Pc) → Passed s force p → Passed s force (next_pc force s p)
next_pc-Passed s force at_pre h = elim (Bool-cases (is_done s.pre_once)) [
  | inl e ↦ rw e e
  | inr e ↦ rw e h
]
next_pc-Passed s force at_close h = elim (Bool-cases (is_done (closing_once force s))) [
  | inl e ↦ rw e (h, e)
  | inr e ↦ rw e h
]
next_pc-Passed s force at_post h = elim (Bool-cases (is_done s.post_once)) [
  | inl e ↦ rw e (h, e)
  | inr e ↦ rw e h
]
next_pc-Passed s force at_notify h = elim (Bool-cases (is_done s.notify_once)) [
  | inl e ↦ rw e (h, e)
  | inr e ↦ rw e h
]
next_pc-Passed s force returned h = h

abbrev pub HasPassed : Shared → Thread → Type 0
HasPassed s t = Passed s t.force t.pc

pub Grows-threads :
    {s t : Shared} → Grows s t → (ts : List Thread) → All (HasPassed s) ts → All (HasPassed t) ts
Grows-threads g ts h = All-map (λ t. Grows-Passed g t.force t.pc) ts h

pub set_thread-HasPassed :
    (s : Shared) (ts : List Thread) (i : ℕ) (t : Thread) (p : Pc)
    → get_elem? ts i ≡ some t
    → Passed s t.force p
    → All (HasPassed s) ts
    → All (HasPassed s) (set_thread ts i p)
set_thread-HasPassed s [] i t p e h all = tt
set_thread-HasPassed s (u ∷ ts) zero t p e h all =
    let same : u.force ≡ t.force = ap (λ v. v.force) (some-injective _ _ e) in (rw same h, all.1)
set_thread-HasPassed s (u ∷ ts) (suc i) t p e h all =
    (all.0, set_thread-HasPassed s ts i t p e h all.1)

pub get_elem?-All {ℓ κ} :
    {A : Type ℓ} (P : A → Type κ) (xs : List A) (i : ℕ) (a : A)
    → get_elem? xs i ≡ some a
    → All P xs
    → P a
get_elem?-All P [] i a e h = cc
get_elem?-All P (x ∷ xs) zero a e h = subst P (some-injective _ _ e) h.0
get_elem?-All P (x ∷ xs) (suc i) a e h = get_elem?-All P xs i a e h.1
