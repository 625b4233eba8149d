-- ===== src/Graceful/Signal/Liveness/Runs.antt =====
-- graceful/signal.go: every step keeps the runners of the bodies in their places, and the account of
-- `mu`.
use goji.Prelude.{
  ℕ, Bool, true, false, ◌||◌, Option, List, [], ◌∷◌, ◌==◌, ◌≡◌, ◌⊎◌, refl, sym, inl, inr,
  if◌then◌else◌,
}
use goji.Graceful.Signal.{
  Once, fresh, running, done, is_done, HookBody, locking, calling, CloseBody, storing, acquiring,
  Event, waiting, NotifyBody, Shared, set_closing_once, pre_body, post_body, pre_do, post_do,
  close_do, notify_do, all_finished,
}
use goji.Graceful.Signal.Threads.{Pc, at_pre, at_close, at_post, at_notify, returned, do_once}
use goji.Graceful.Signal.Liveness.Runners.{
  Moves, pre_do-Moves, post_do-Moves, notify_do-Moves, close_do-Moves,
}

if-same :
    {X : Type 0} (f : Shared → X) (v : X) (b : Bool) (x y : Shared)
    → f x ≡ v
    → f y ≡ v
    → f (if b then x else y) ≡ v
if-same f v true x y h g = h
if-same f v false x y h g = g

-- A step of one `Do` changes nothing that does not read what it writes.
module _ {X : Type 0} (f : Shared → X) where
  pre_do-same :
      ((s : Shared) (c : Once HookBody) (l : Bool) (g : List Event)
        → f (record s { pre_once = c; locked = l; log = g }) ≡ f s)
      → (k : ℕ) (sig : Option ℕ) (c : Once HookBody) (s : Shared) → f (pre_do k sig c s) ≡ f s
  pre_do-same h k sig fresh s = h s _ s.locked s.log
  pre_do-same h k sig (running j locking) s =
      if-same f _ (k == j) _ _ (if-same f _ s.locked _ _ refl (h s _ true s.log)) refl
  pre_do-same h k sig (running j (calling [])) s = if-same f _ (k == j) _ _ (h s _ false s.log) refl
  pre_do-same h k sig (running j (calling (x ∷ xs))) s =
      if-same f _ (k == j) _ _ (h s _ s.locked _) refl
  pre_do-same h k sig done s = refl

  post_do-same :
      ((s : Shared) (c : Once HookBody) (l : Bool) (g : List Event)
        → f (record s { post_once = c; locked = l; log = g }) ≡ f s)
      → (k : ℕ) (sig : Option ℕ) (c : Once HookBody) (s : Shared) → f (post_do k sig c s) ≡ f s
  post_do-same h k sig fresh s = h s _ s.locked s.log
  post_do-same h k sig (running j locking) s =
      if-same f _ (k == j) _ _ (if-same f _ s.locked _ _ refl (h s _ true s.log)) refl
  post_do-same h k sig (running j (calling [])) s =
      if-same f _ (k == j) _ _ (h s _ false s.log) refl
  post_do-same h k sig (running j (calling (x ∷ xs))) s =
      if-same f _ (k == j) _ _ (h s _ s.locked _) refl
  post_do-same h k sig done s = refl

  pub notify_do-same :
      ((s : Shared) (c : Once NotifyBody) (w p : Bool) (g : List Event)
        → f (record s { notify_once = c; wait_closed = w; panicked = p; log = g }) ≡ f s)
      → (k : ℕ) (c : Once NotifyBody) (s : Shared) → f (notify_do k c s) ≡ f s
  notify_do-same h k fresh s = h s _ s.wait_closed s.panicked s.log
  notify_do-same h k (running j b) s = if-same f _ (k == j) _ _ (h s _ _ _ _) refl
  notify_do-same h k done s = refl

  pub close_do-same :
      (force : Bool)
      → ((s : Shared) (c : Once CloseBody) (b : Bool)
          → f (set_closing_once force c (record s { closing = b })) ≡ f s)
      → (k : ℕ) (c : Once CloseBody) (s : Shared) → f (close_do k force c s) ≡ f s
  close_do-same force h k fresh s = h s _ s.closing
  close_do-same force h k (running j storing) s = if-same f _ (k == j) _ _ (h s _ true) refl
  close_do-same force h k (running j acquiring) s =
      if-same f _ (k == j) _ _ (if-same f _ s.locked _ _ refl (h s _ s.closing)) refl
  close_do-same force h k (running j (waiting js)) s =
      if-same f _ (k == j) _ _ (if-same f _ (all_finished js) _ _ (h s _ s.closing) refl) refl
  close_do-same force h k done s = refl

abbrev pub is_calling : Once HookBody → Bool
is_calling (running i (calling hs)) = true
is_calling _ = false

-- `mu` is held exactly while one of the bodies calls hooks.
pub record LockFits (s : Shared) : Type 0 where
  pub fits : s.locked ≡ (is_calling s.pre_once || is_calling s.post_once)

if-LockFits : (b : Bool) (x y : Shared) → LockFits x → LockFits y → LockFits (if b then x else y)
if-LockFits true x y h g = h
if-LockFits false x y h g = g

pre_locking-LockFits :
    (k j : ℕ) (sig : Option ℕ) (s : Shared)
    → LockFits (record s { pre_once = running j locking })
    → LockFits (pre_body k sig locking (record s { pre_once = running j locking }))
pre_locking-LockFits k j sig s h =
    if-LockFits s.locked _ (record s { locked = true; pre_once = running k (calling s.prehooks) }) h
      (record { fits = refl })

pub pre_do-LockFits :
    (k : ℕ) (sig : Option ℕ) (c : Once HookBody) (s : Shared)
    → (is_done c ≡ false → is_calling s.post_once ≡ false)
    → LockFits (record s { pre_once = c })
    → LockFits (pre_do k sig c (record s { pre_once = c }))
pre_do-LockFits k sig fresh s n h = record { fits = h.fits }
pre_do-LockFits k sig (running j locking) s n h =
    if-LockFits (k == j) _ _ (pre_locking-LockFits k j sig s h) h
pre_do-LockFits k sig (running j (calling [])) s n h =
    if-LockFits (k == j) _ _ (record { fits = sym (n refl) }) h
pre_do-LockFits k sig (running j (calling (x ∷ xs))) s n h =
    if-LockFits (k == j) _ _ (record { fits = h.fits }) h
pre_do-LockFits k sig done s n h = h

post_locking-LockFits :
    (k j : ℕ) (sig : Option ℕ) (s : Shared)
    → is_calling s.pre_once ≡ false
    → LockFits (record s { post_once = running j locking })
    → LockFits (post_body k sig locking (record s { post_once = running j locking }))
post_locking-LockFits k j sig s n h =
    if-LockFits s.locked _ (record s { locked = true; post_once = running k (calling s.posthooks) })
      h (record { fits = rw n refl })

pub post_do-LockFits :
    (k : ℕ) (sig : Option ℕ) (c : Once HookBody) (s : Shared)
    → is_calling s.pre_once ≡ false
    → LockFits (record s { post_once = c })
    → LockFits (post_do k sig c (record s { post_once = c }))
post_do-LockFits k sig fresh s n h = record { fits = h.fits }
post_do-LockFits k sig (running j locking) s n h =
    if-LockFits (k == j) _ _ (post_locking-LockFits k j sig s n h) h
post_do-LockFits k sig (running j (calling [])) s n h =
    if-LockFits (k == j) _ _ (record { fits = rw n refl }) h
post_do-LockFits k sig (running j (calling (x ∷ xs))) s n h =
    if-LockFits (k == j) _ _ (record { fits = h.fits }) h
post_do-LockFits k sig done s n h = h

-- A cell after a step of goroutine `k`, which is at the `Do` of the cell or elsewhere.
abbrev pub CellStep : {A : Type 0} → Type 0 → ℕ → Once A → Once A → Type 0
CellStep Here k c c' = (Here × Moves k c c') ⊎ ((¬ Here) × (c' ≡ c))

-- The cells after a step of goroutine `k` at `p`.
pub record CellMoves (k : ℕ) (force : Bool) (p : Pc) (s t : Shared) : Type 0 where
  pub pre : CellStep (p ≡ at_pre) k s.pre_once t.pre_once
  pub close : CellStep ((p ≡ at_close) × (force ≡ false)) k s.close_once t.close_once
  pub forced : CellStep ((p ≡ at_close) × (force ≡ true)) k s.force_once t.force_once
  pub post : CellStep (p ≡ at_post) k s.post_once t.post_once
  pub notify : CellStep (p ≡ at_notify) k s.notify_once t.notify_once

pub do_once-CellMoves :
    (k : ℕ) (force : Bool) (sig : Option ℕ) (p : Pc) (s : Shared)
    → CellMoves k force p s (do_once k force sig p s)
do_once-CellMoves k force sig at_pre s = record {
  pre = inl (refl, pre_do-Moves k sig s.pre_once s);
  close = inr (λ e. cc, pre_do-same (λ s. s.close_once) (λ s c l g. refl) k sig _ s);
  forced = inr (λ e. cc, pre_do-same (λ s. s.force_once) (λ s c l g. refl) k sig _ s);
  post = inr (λ e. cc, pre_do-same (λ s. s.post_once) (λ s c l g. refl) k sig _ s);
  notify = inr (λ e. cc, pre_do-same (λ s. s.notify_once) (λ s c l g. refl) k sig _ s);
}
do_once-CellMoves k true sig at_close s = record {
  pre = inr (λ e. cc, close_do-same (λ s. s.pre_once) true (λ s c b. refl) k _ s);
  close = inr (λ e. cc, close_do-same (λ s. s.close_once) true (λ s c b. refl) k _ s);
  forced = inl ((refl, refl), close_do-Moves k true s.force_once s refl);
  post = inr (λ e. cc, close_do-same (λ s. s.post_once) true (λ s c b. refl) k _ s);
  notify = inr (λ e. cc, close_do-same (λ s. s.notify_once) true (λ s c b. refl) k _ s);
}
do_once-CellMoves k false sig at_close s = record {
  pre = inr (λ e. cc, close_do-same (λ s. s.pre_once) false (λ s c b. refl) k _ s);
  close = inl ((refl, refl), close_do-Moves k false s.close_once s refl);
  forced = inr (λ e. cc, close_do-same (λ s. s.force_once) false (λ s c b. refl) k _ s);
  post = inr (λ e. cc, close_do-same (λ s. s.post_once) false (λ s c b. refl) k _ s);
  notify = inr (λ e. cc, close_do-same (λ s. s.notify_once) false (λ s c b. refl) k _ s);
}
do_once-CellMoves k force sig at_post s = record {
  pre = inr (λ e. cc, post_do-same (λ s. s.pre_once) (λ s c l g. refl) k sig _ s);
  close = inr (λ e. cc, post_do-same (λ s. s.close_once) (λ s c l g. refl) k sig _ s);
  forced = inr (λ e. cc, post_do-same (λ s. s.force_once) (λ s c l g. refl) k sig _ s);
  post = inl (refl, post_do-Moves k sig s.post_once s);
  notify = inr (λ e. cc, post_do-same (λ s. s.notify_once) (λ s c l g. refl) k sig _ s);
}
do_once-CellMoves k force sig at_notify s = record {
  pre = inr (λ e. cc, notify_do-same (λ s. s.pre_once) (λ s c w p g. refl) k _ s);
  close = inr (λ e. cc, notify_do-same (λ s. s.close_once) (λ s c w p g. refl) k _ s);
  forced = inr (λ e. cc, notify_do-same (λ s. s.force_once) (λ s c w p g. refl) k _ s);
  post = inr (λ e. cc, notify_do-same (λ s. s.post_once) (λ s c w p g. refl) k _ s);
  notify = inl (refl, notify_do-Moves k s.notify_once s);
}
do_once-CellMoves k force sig returned s = record {
  pre = inr (λ e. cc, refl);
  close = inr (λ e. cc, refl);
  forced = inr (λ e. cc, refl);
  post = inr (λ e. cc, refl);
  notify = inr (λ e. cc, refl);
}
