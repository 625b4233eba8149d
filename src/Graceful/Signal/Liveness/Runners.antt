-- ===== src/Graceful/Signal/Liveness/Runners.antt =====
-- graceful/signal.go: the goroutine that runs the body of a `sync.Once` is at that `Do`, and `mu` is
-- held exactly while hooks are called.
use goji.Prelude.{
  ℕ, zero, suc, Bool, true, false, Option, some, List, [], ◌∷◌, ◌++◌, ◌==◌, ◌≡◌, refl, sym, ap,
  subst, ◌∙◌, ◌⊎◌, inl, inr, if◌then◌else◌, get_elem?,
}
use mathlib.Core.Option.{some-injective}
use goji.Graceful.Signal.{
  Once, fresh, running, done, HookBody, locking, calling, CloseBody, storing, acquiring, waiting,
  NotifyBody, to_notify, Shared, closing_once, set_closing_once, pre_do, post_do, close_do,
  notify_do, all_finished,
}
use goji.Graceful.Signal.Threads.{Pc, Thread, set_thread}

-- What one step of goroutine `k` makes of a cell.
pub data Moves {A : Type 0} (k : ℕ) : Once A → Once A → Type 0 where
  same : (c : Once A) → Moves k c c
  enters : (b : A) → Moves k fresh (running k b)
  goes : (j : ℕ) (b b' : A) → Moves k (running j b) (running k b')
  ends : (j : ℕ) (b : A) → Moves k (running j b) done

-- A goroutine that fits `P` runs the body, if any does.
abbrev pub Runner : {A : Type 0} → (Thread → Type 0) → List Thread → Once A → Type 0
Runner P ts (running i b) = (t : Thread) × ((get_elem? ts i ≡ some t) × P t)
Runner P ts _ = Unit

pub Moves-Runner :
    {A : Type 0} (P : Thread → Type 0) (ts : List Thread) (k : ℕ) (t : Thread) {c c' : Once A}
    → Moves k c c'
    → get_elem? ts k ≡ some t
    → P t
    → Runner P ts c
    → Runner P ts c'
Moves-Runner P ts k t (same c) e p r = r
Moves-Runner P ts k t (enters b) e p r = (t, (e, p))
Moves-Runner P ts k t (goes j b b') e p r = (t, (e, p))
Moves-Runner P ts k t (ends j b) e p r = tt

abbrev with_pc : Pc → Thread → Thread
with_pc p t = record t { pc = p }

get_elem?-set_thread :
    (ts : List Thread) (k i : ℕ) (t u : Thread) (p : Pc)
    → get_elem? ts k ≡ some t
    → get_elem? ts i ≡ some u
    → (v : Thread) × ((get_elem? (set_thread ts k p) i ≡ some v)
        × ((v ≡ u) ⊎ ((t ≡ u) × (v ≡ record t { pc = p }))))
get_elem?-set_thread [] k i t u p e f = cc
get_elem?-set_thread (x ∷ ts) zero zero t u p e f = (
  record x { pc = p },
  (refl, inr (some-injective _ _ (sym e ∙ f), ap (with_pc p) (some-injective _ _ e))),
)
get_elem?-set_thread (x ∷ ts) zero (suc i) t u p e f = (u, (f, inl refl))
get_elem?-set_thread (x ∷ ts) (suc k) zero t u p e f = (u, (f, inl refl))
get_elem?-set_thread (x ∷ ts) (suc k) (suc i) t u p e f = get_elem?-set_thread ts k i t u p e f

-- The runner stays the runner when another goroutine, or it at the same place, is set.
pub set_thread-Runner :
    {A : Type 0} (P : Thread → Type 0) (ts : List Thread) (k : ℕ) (t : Thread) (p : Pc) (c : Once A)
    → get_elem? ts k ≡ some t
    → (P t → P (record t { pc = p }))
    → Runner P ts c
    → Runner P (set_thread ts k p) c
set_thread-Runner P ts k t p fresh e f r = tt
set_thread-Runner P ts k t p done e f r = tt
set_thread-Runner P ts k t p (running i b) e f (u, (g, q)) =
    let (v, (h, which)) = get_elem?-set_thread ts k i t u p e g in
    elim which [
      | inl s ↦ (v, (h, subst P (sym s) q))
      | inr s ↦ (v, (h, subst P (sym s.1) (f (subst P (sym s.0) q))))
    ]

pub append-Runner :
    {A : Type 0} (P : Thread → Type 0) (ts us : List Thread) (c : Once A)
    → Runner P ts c
    → Runner P (ts ++ us) c
append-Runner P ts us fresh r = tt
append-Runner P ts us done r = tt
append-Runner P ts us (running i b) (t, (e, p)) = (t, (get_elem?-append_some ts us i t e, p))
  where
    get_elem?-append_some :
        (ts us : List Thread) (i : ℕ) (t : Thread)
        → get_elem? ts i ≡ some t
        → get_elem? (ts ++ us) i ≡ some t
    get_elem?-append_some [] us i t e = cc
    get_elem?-append_some (x ∷ ts) us zero t e = e
    get_elem?-append_some (x ∷ ts) us (suc i) t e = get_elem?-append_some ts us i t e

-- The step of the goroutine that runs the body, or of another.
own-Moves :
    {A : Type 0} (f : Shared → Once A) (k j : ℕ) (b : A) (q : Bool) (x y : Shared)
    → Moves k (running j b) (f x)
    → Moves k (running j b) (f y)
    → Moves k (running j b) (f (if q then x else y))
own-Moves f k j b true x y h g = h
own-Moves f k j b false x y h g = g

pub pre_do-Moves :
    (k : ℕ) (sig : Option ℕ) (c : Once HookBody) (s : Shared)
    → Moves k c (pre_do k sig c (record s { pre_once = c })).pre_once
pre_do-Moves k sig fresh s = enters locking
pre_do-Moves k sig (running j locking) s =
    own-Moves (λ s. s.pre_once) k j locking (k == j) _ _
      (own-Moves (λ s. s.pre_once) k j locking s.locked _ _ (same _) (goes j _ _)) (same _)
pre_do-Moves k sig (running j (calling [])) s =
    own-Moves (λ s. s.pre_once) k j _ (k == j) _ _ (ends j _) (same _)
pre_do-Moves k sig (running j (calling (h ∷ hs))) s =
    own-Moves (λ s. s.pre_once) k j _ (k == j) _ _ (goes j _ _) (same _)
pre_do-Moves k sig done s = same done

pub post_do-Moves :
    (k : ℕ) (sig : Option ℕ) (c : Once HookBody) (s : Shared)
    → Moves k c (post_do k sig c (record s { post_once = c })).post_once
post_do-Moves k sig fresh s = enters locking
post_do-Moves k sig (running j locking) s =
    own-Moves (λ s. s.post_once) k j locking (k == j) _ _
      (own-Moves (λ s. s.post_once) k j locking s.locked _ _ (same _) (goes j _ _)) (same _)
post_do-Moves k sig (running j (calling [])) s =
    own-Moves (λ s. s.post_once) k j _ (k == j) _ _ (ends j _) (same _)
post_do-Moves k sig (running j (calling (h ∷ hs))) s =
    own-Moves (λ s. s.post_once) k j _ (k == j) _ _ (goes j _ _) (same _)
post_do-Moves k sig done s = same done

pub notify_do-Moves :
    (k : ℕ) (c : Once NotifyBody) (s : Shared)
    → Moves k c (notify_do k c (record s { notify_once = c })).notify_once
notify_do-Moves k fresh s = enters to_notify
notify_do-Moves k (running j b) s =
    own-Moves (λ s. s.notify_once) k j _ (k == j) _ _ (ends j _) (same _)
notify_do-Moves k done s = same done

closing_once-set :
    (force : Bool) (c : Once CloseBody) (s : Shared)
    → closing_once force (set_closing_once force c s) ≡ c
closing_once-set true c s = refl
closing_once-set false c s = refl

set-Moves :
    (force : Bool) (k : ℕ) (c c' : Once CloseBody) (s : Shared)
    → Moves k c c'
    → Moves k c (closing_once force (set_closing_once force c' s))
set-Moves true k c c' s m = m
set-Moves false k c c' s m = m

same-Moves : {A : Type 0} (k : ℕ) (c c' : Once A) → c' ≡ c → Moves k c c'
same-Moves k c c' e = subst (Moves k c) (sym e) (same c)

pub close_do-Moves :
    (k : ℕ) (force : Bool) (c : Once CloseBody) (s : Shared)
    → closing_once force s ≡ c
    → Moves k c (closing_once force (close_do k force c s))
close_do-Moves k force fresh s e = set-Moves force k _ _ s (enters _)
close_do-Moves k force (running j storing) s e =
    own-Moves (closing_once force) k j _ (k == j) _ _ (set-Moves force k _ _ _ (goes j _ _))
      (same-Moves k _ _ e)
close_do-Moves k force (running j acquiring) s e =
    own-Moves (closing_once force) k j _ (k == j) _ _
      (own-Moves (closing_once force) k j _ s.locked _ _ (same-Moves k _ _ e)
        (set-Moves force k _ _ _ (goes j _ _)))
      (same-Moves k _ _ e)
close_do-Moves k force (running j (waiting js)) s e =
    own-Moves (closing_once force) k j _ (k == j) _ _
      (own-Moves (closing_once force) k j _ (all_finished js) _ _
        (set-Moves force k _ _ _ (ends j _)) (same-Moves k _ _ e))
      (same-Moves k _ _ e)
close_do-Moves k force done s e = same-Moves k _ _ e
