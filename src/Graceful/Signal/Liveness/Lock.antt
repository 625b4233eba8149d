-- ===== src/Graceful/Signal/Liveness/Lock.antt =====
-- graceful/signal.go: `mu` is held exactly while a body calls hooks.
use goji.Prelude.{
  ℕ, Bool, true, false, Option, List, ◌≡◌, refl, sym, ◌∙◌, arith, inl, inr, Bool-cases,
}
use goji.Graceful.Signal.{
  Once, fresh, running, done, is_done, HookBody, locking, calling, CloseBody, Hook, Event, Shared,
}
use goji.Graceful.Signal.Threads.{Pc, at_pre, at_close, at_post, at_notify, returned, do_once}
use goji.Graceful.Signal.Invariant.{PostState, CloseState, any_closed, Inv}
use goji.Graceful.Signal.Invariant.Passed.{Passed}
use goji.Graceful.Signal.Liveness.Runners.{}
use goji.Graceful.Signal.Liveness.Runs.{
  LockFits, is_calling, pre_do-LockFits, post_do-LockFits, close_do-same, notify_do-same,
}

-- Hooks of `PostHook` are called only when those of `PreHook` have been.
CloseState-pre :
    (ls : List ℕ) (d : Bool) (c : Once CloseBody) (log : List Event)
    → is_done c ≡ true
    → CloseState ls d c log
    → d ≡ true
CloseState-pre ls d fresh log e h = cc
CloseState-pre ls d (running i b) log e h = cc
CloseState-pre ls d done log e h = h.0

any_closed-pre : (s : Shared) → Inv s → any_closed s ≡ true → is_done s.pre_once ≡ true
any_closed-pre s v e = elim (Bool-cases (is_done s.close_once)) [
  | inl d ↦ CloseState-pre _ _ s.close_once _ d v.close
  | inr d ↦ CloseState-pre _ _ s.force_once _ (ground arith) v.force
]

calling-ready :
    (hooks : List Hook) (ready : Bool) (c : Once HookBody) (log : List Event)
    → is_calling c ≡ true
    → PostState hooks ready c log
    → ready ≡ true
calling-ready hooks ready fresh log e h = cc
calling-ready hooks ready (running i locking) log e h = cc
calling-ready hooks ready (running i (calling hs)) log e h = h.0
calling-ready hooks ready done log e h = cc

pub not_calling_post :
    (s : Shared) → Inv s → is_done s.pre_once ≡ false → is_calling s.post_once ≡ false
not_calling_post s v d = elim (Bool-cases (is_calling s.post_once)) [
  | inl e ↦ cc (any_closed-pre s v (calling-ready _ _ s.post_once _ e v.post))
  | inr e ↦ e
]

pub not_calling_pre : (c : Once HookBody) → is_done c ≡ true → is_calling c ≡ false
not_calling_pre fresh e = cc
not_calling_pre (running i b) e = cc
not_calling_pre done e = refl

pub LockFits-same :
    (s t : Shared)
    → t.locked ≡ s.locked
    → t.pre_once ≡ s.pre_once
    → t.post_once ≡ s.post_once
    → LockFits s
    → LockFits t
LockFits-same s t a b c h = record { fits = a ∙ h.fits ∙ sym (rw b (rw c refl)) }

pub do_once-LockFits :
    (k : ℕ) (force : Bool) (sig : Option ℕ) (p : Pc) (s : Shared)
    → Passed s force p
    → Inv s
    → LockFits s
    → LockFits (do_once k force sig p s)
do_once-LockFits k force sig at_pre s h v l =
    pre_do-LockFits k sig s.pre_once s (not_calling_post s v) l
do_once-LockFits k true sig at_close s h v l =
    LockFits-same s _ (close_do-same (λ s. s.locked) true (λ s c b. refl) k _ s)
      (close_do-same (λ s. s.pre_once) true (λ s c b. refl) k _ s)
      (close_do-same (λ s. s.post_once) true (λ s c b. refl) k _ s) l
do_once-LockFits k false sig at_close s h v l =
    LockFits-same s _ (close_do-same (λ s. s.locked) false (λ s c b. refl) k _ s)
      (close_do-same (λ s. s.pre_once) false (λ s c b. refl) k _ s)
      (close_do-same (λ s. s.post_once) false (λ s c b. refl) k _ s) l
do_once-LockFits k force sig at_post s h v l =
    post_do-LockFits k sig s.post_once s (not_calling_pre s.pre_once h.0) l
do_once-LockFits k force sig at_notify s h v l =
    LockFits-same s _ (notify_do-same (λ s. s.locked) (λ s c w p g. refl) k _ s)
      (notify_do-same (λ s. s.pre_once) (λ s c w p g. refl) k _ s)
      (notify_do-same (λ s. s.post_once) (λ s c w p g. refl) k _ s) l
do_once-LockFits k force sig returned s h v l = l
