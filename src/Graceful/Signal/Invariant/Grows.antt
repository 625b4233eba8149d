-- ===== src/Graceful/Signal/Invariant/Grows.antt =====
-- graceful/signal.go: a body that has ended stays ended, and a step registers nothing.
use goji.Prelude.{ℕ, Bool, true, false, Option, [], ◌∷◌, ◌==◌, ◌≡◌, refl, if◌then◌else◌}
use goji.Graceful.Signal.{
  Once, fresh, running, done, is_done, HookBody, locking, calling, CloseBody, storing, acquiring,
  waiting, NotifyBody, Shared, closing_once, set_closing_once, pre_do, post_do, close_body,
  close_do, notify_do, all_finished,
}
use goji.Graceful.Signal.Threads.{
  Pc, at_pre, at_close, at_post, at_notify, returned, do_once, work_cell,
}

-- What was registered.
abbrev pub IsSame : Shared → Shared → Type 0
IsSame s t = (t.listeners ≡ s.listeners) × ((t.prehooks ≡ s.prehooks) × (t.posthooks ≡ s.posthooks))

-- A body that has ended stays ended, and nothing is registered.
pub record Grows (s t : Shared) : Type 0 where
  pub pre : is_done s.pre_once ≡ true → is_done t.pre_once ≡ true
  pub close : is_done s.close_once ≡ true → is_done t.close_once ≡ true
  pub force : is_done s.force_once ≡ true → is_done t.force_once ≡ true
  pub post : is_done s.post_once ≡ true → is_done t.post_once ≡ true
  pub notify : is_done s.notify_once ≡ true → is_done t.notify_once ≡ true
  pub same : IsSame s t

Grows-refl : (s : Shared) → Grows s s
Grows-refl s = record {
  pre = λ e. e;
  close = λ e. e;
  force = λ e. e;
  post = λ e. e;
  notify = λ e. e;
  same = (refl, (refl, refl));
}

if-Grows : (b : Bool) (s x y : Shared) → Grows s x → Grows s y → Grows s (if b then x else y)
if-Grows true s x y hx hy = hx
if-Grows false s x y hx hy = hy

module _ (s t : Shared) where
  only_pre :
      is_done s.pre_once ≡ false
      → t.close_once ≡ s.close_once
      → t.force_once ≡ s.force_once
      → t.post_once ≡ s.post_once
      → t.notify_once ≡ s.notify_once
      → IsSame s t
      → Grows s t
  only_pre e a b c d same = record {
    pre = λ h. cc;
    close = λ h. rw a h;
    force = λ h. rw b h;
    post = λ h. rw c h;
    notify = λ h. rw d h;
    same = same;
  }

pre_do-Grows :
    (i : ℕ) (sig : Option ℕ) (c : Once HookBody) (s : Shared)
    → Grows (record s { pre_once = c }) (pre_do i sig c (record s { pre_once = c }))
pre_do-Grows i sig fresh s = only_pre _ _ refl refl refl refl refl (refl, (refl, refl))
pre_do-Grows i sig (running j locking) s =
    if-Grows (i == j) _ _ _
      (if-Grows s.locked _ _ _ (Grows-refl _)
        (only_pre _ _ refl refl refl refl refl (refl, (refl, refl))))
      (Grows-refl _)
pre_do-Grows i sig (running j (calling [])) s =
    if-Grows (i == j) _ _ _ (only_pre _ _ refl refl refl refl refl (refl, (refl, refl)))
      (Grows-refl _)
pre_do-Grows i sig (running j (calling (h ∷ hs))) s =
    if-Grows (i == j) _ _ _ (only_pre _ _ refl refl refl refl refl (refl, (refl, refl)))
      (Grows-refl _)
pre_do-Grows i sig done s = Grows-refl _

only_post :
    (s t : Shared)
    → is_done s.post_once ≡ false
    → t.pre_once ≡ s.pre_once
    → t.close_once ≡ s.close_once
    → t.force_once ≡ s.force_once
    → t.notify_once ≡ s.notify_once
    → IsSame s t
    → Grows s t
only_post s t e a b c d same = record {
  pre = λ h. rw a h;
  close = λ h. rw b h;
  force = λ h. rw c h;
  post = λ h. cc;
  notify = λ h. rw d h;
  same = same;
}

post_do-Grows :
    (i : ℕ) (sig : Option ℕ) (c : Once HookBody) (s : Shared)
    → Grows (record s { post_once = c }) (post_do i sig c (record s { post_once = c }))
post_do-Grows i sig fresh s = only_post _ _ refl refl refl refl refl (refl, (refl, refl))
post_do-Grows i sig (running j locking) s =
    if-Grows (i == j) _ _ _
      (if-Grows s.locked _ _ _ (Grows-refl _)
        (only_post _ _ refl refl refl refl refl (refl, (refl, refl))))
      (Grows-refl _)
post_do-Grows i sig (running j (calling [])) s =
    if-Grows (i == j) _ _ _ (only_post _ _ refl refl refl refl refl (refl, (refl, refl)))
      (Grows-refl _)
post_do-Grows i sig (running j (calling (h ∷ hs))) s =
    if-Grows (i == j) _ _ _ (only_post _ _ refl refl refl refl refl (refl, (refl, refl)))
      (Grows-refl _)
post_do-Grows i sig done s = Grows-refl _

notify_do-Grows :
    (i : ℕ) (c : Once NotifyBody) (s : Shared)
    → Grows (record s { notify_once = c }) (notify_do i c (record s { notify_once = c }))
notify_do-Grows i fresh s = record {
  pre = λ e. e;
  close = λ e. e;
  force = λ e. e;
  post = λ e. e;
  notify = λ e. cc;
  same = (refl, (refl, refl));
}
notify_do-Grows i (running j b) s =
    if-Grows (i == j) _ _ _
      (record {
        pre = λ e. e;
        close = λ e. e;
        force = λ e. e;
        post = λ e. e;
        notify = λ e. refl;
        same = (refl, (refl, refl));
      })
      (Grows-refl _)
notify_do-Grows i done s = Grows-refl _

-- The cell of a body of `closeListeners` that has not ended is replaced.
replace-Grows :
    (force : Bool) (c : Once CloseBody) (s t : Shared)
    → is_done (closing_once force s) ≡ false
    → Grows s t
    → Grows s (set_closing_once force c t)
replace-Grows true c s t e g = record {
  pre = g.pre;
  close = g.close;
  force = λ h. cc;
  post = g.post;
  notify = g.notify;
  same = g.same;
}
replace-Grows false c s t e g = record {
  pre = g.pre;
  close = λ h. cc;
  force = g.force;
  post = g.post;
  notify = g.notify;
  same = g.same;
}

still-Grows :
    (s t : Shared)
    → t.pre_once ≡ s.pre_once
    → t.close_once ≡ s.close_once
    → t.force_once ≡ s.force_once
    → t.post_once ≡ s.post_once
    → t.notify_once ≡ s.notify_once
    → IsSame s t
    → Grows s t
still-Grows s t a b c d e same = record {
  pre = λ h. rw a h;
  close = λ h. rw b h;
  force = λ h. rw c h;
  post = λ h. rw d h;
  notify = λ h. rw e h;
  same = same;
}

close_body-Grows :
    (i : ℕ) (force : Bool) (b : CloseBody) (s : Shared)
    → is_done (closing_once force s) ≡ false
    → Grows s (close_body i force b s)
close_body-Grows i force storing s e =
    replace-Grows force _ s _ e (still-Grows _ _ refl refl refl refl refl (refl, (refl, refl)))
close_body-Grows i force acquiring s e =
    if-Grows s.locked s _ _ (Grows-refl s) (replace-Grows force _ s s e (Grows-refl s))
close_body-Grows i force (waiting js) s e =
    if-Grows (all_finished js) s _ _ (replace-Grows force _ s s e (Grows-refl s)) (Grows-refl s)

close_do-Grows :
    (i : ℕ) (force : Bool) (c : Once CloseBody) (s : Shared)
    → is_done c ≡ is_done (closing_once force s)
    → Grows s (close_do i force c s)
close_do-Grows i force fresh s e = replace-Grows force _ s s (cc) (Grows-refl s)
close_do-Grows i force (running j b) s e =
    if-Grows (i == j) s _ _ (close_body-Grows i force b s (cc)) (Grows-refl s)
close_do-Grows i force done s e = Grows-refl s

pub do_once-Grows :
    (i : ℕ) (force : Bool) (sig : Option ℕ) (p : Pc) (s : Shared)
    → Grows s (do_once i force sig p s)
do_once-Grows i force sig at_pre s = pre_do-Grows i sig s.pre_once s
do_once-Grows i force sig at_close s = close_do-Grows i force _ s refl
do_once-Grows i force sig at_post s = post_do-Grows i sig s.post_once s
do_once-Grows i force sig at_notify s = notify_do-Grows i s.notify_once s
do_once-Grows i force sig returned s = Grows-refl s

work_cell-Grows :
    (force : Bool) (k : ℕ) (c : Once CloseBody) (s : Shared)
    → is_done c ≡ is_done (closing_once force s)
    → Grows s (work_cell force k c s)
work_cell-Grows force k fresh s e = Grows-refl s
work_cell-Grows force k (running i storing) s e = Grows-refl s
work_cell-Grows force k (running i acquiring) s e = Grows-refl s
work_cell-Grows force k (running i (waiting js)) s e =
    replace-Grows force _ s _ (cc) (still-Grows _ _ refl refl refl refl refl (refl, (refl, refl)))
work_cell-Grows force k done s e = Grows-refl s

pub work-Grows :
    (force : Bool) (k : ℕ) (s : Shared) → Grows s (work_cell force k (closing_once force s) s)
work-Grows force k s = work_cell-Grows force k _ s refl
