-- ===== src/Graceful/Signal/Invariant/Moves.antt =====
-- graceful/signal.go: each step keeps the invariant.
use goji.Prelude.{
  ℕ, Bool, true, false, Option, [], ◌∷◌, ◌==◌, All, ◌≡◌, refl, sym, ◌∙◌, inl, inr, arith,
  Bool-cases, if◌then◌else◌,
}
use mathlib.Core.List.{append-nil, append_assoc}
use goji.Graceful.Signal.{
  Once, fresh, running, done, is_done, HookBody, locking, calling, NotifyBody, Shared, closing_once,
  pre_body, pre_do, post_body, post_do, notify_do,
}
use goji.Graceful.Signal.Invariant.States.{
  CloseState-cons, CloseState-done, PostState-pre, PostState-notified, PreState-done,
  PreState-of_calls, NotifyState-done, CloseState-All, PostState-calls,
}
use goji.Graceful.Signal.Invariant.{pre_calls, post_calls, IsShutDown, any_closed, Inv}

pub if-Inv : (b : Bool) (x y : Shared) → Inv x → Inv y → Inv (if b then x else y)
if-Inv true x y hx hy = hx
if-Inv false x y hx hy = hy

pre_body-Inv :
    (i : ℕ) (sig : Option ℕ) (b : HookBody) (s : Shared)
    → Inv (record s { pre_once = running i b })
    → Inv (pre_body i sig b (record s { pre_once = running i b }))
pre_body-Inv i sig locking s v = if-Inv s.locked _ _ v (record {
  pre = (rw v.pre refl, rw v.pre tt);
  close = v.close;
  force = v.force;
  post = v.post;
  notify = v.notify;
  calm = v.calm;
  ordered = v.ordered;
})
pre_body-Inv i sig (calling []) s v = record {
  pre = sym (append-nil (pre_calls s.log)) ∙ v.pre.0;
  close = CloseState-done _ _ _ _ v.close;
  force = CloseState-done _ _ _ _ v.force;
  post = v.post;
  notify = v.notify;
  calm = v.calm;
  ordered = v.ordered;
}
pre_body-Inv i sig (calling (h ∷ hs)) s v = record {
  pre = (append_assoc (pre_calls s.log) (h ∷ []) hs ∙ v.pre.0, (refl, v.pre.1));
  close = CloseState-cons _ _ _ _ _ v.close;
  force = CloseState-cons _ _ _ _ _ v.force;
  post = PostState-pre _ _ _ _ _ _ v.post;
  notify = v.notify;
  calm = v.calm;
  ordered = (v.pre.1, v.ordered);
}

pre_do-Inv :
    (i : ℕ) (sig : Option ℕ) (c : Once HookBody) (s : Shared)
    → Inv (record s { pre_once = c })
    → Inv (pre_do i sig c (record s { pre_once = c }))
pre_do-Inv i sig fresh s v = record {
  pre = v.pre;
  close = v.close;
  force = v.force;
  post = v.post;
  notify = v.notify;
  calm = v.calm;
  ordered = v.ordered;
}
pre_do-Inv i sig (running j b) s v = elim (Bool-cases (i == j)) [
  | inl e ↦ let same : i ≡ j = ground arith in rw e (rw same (pre_body-Inv j sig b s v))
  | inr e ↦ rw e v
]
pre_do-Inv i sig done s v = v

pub pre_step-Inv : (i : ℕ) (sig : Option ℕ) (s : Shared) → Inv s → Inv (pre_do i sig s.pre_once s)
pre_step-Inv i sig s v = pre_do-Inv i sig s.pre_once s v

post_body-Inv :
    (i : ℕ) (sig : Option ℕ) (b : HookBody) (s : Shared)
    → is_done s.pre_once ≡ true
    → (any_closed s ≡ true)
    → All (IsShutDown s.log) s.listeners
    → Inv (record s { post_once = running i b })
    → Inv (post_body i sig b (record s { post_once = running i b }))
post_body-Inv i sig locking s p a d v = if-Inv s.locked _ _ v (record {
  pre = v.pre;
  close = v.close;
  force = v.force;
  post = (a, rw v.post.1 refl);
  notify = v.notify;
  calm = v.calm;
  ordered = v.ordered;
})
post_body-Inv i sig (calling []) s p a d v = record {
  pre = v.pre;
  close = v.close;
  force = v.force;
  post = (a, sym (append-nil (post_calls s.log)) ∙ v.post.1);
  notify = NotifyState-done _ _ _ v.notify;
  calm = v.calm;
  ordered = v.ordered;
}
post_body-Inv i sig (calling (h ∷ hs)) s p a d v =
    let calls = PreState-done s.prehooks s.pre_once s.log v.pre p in
    record {
      pre = PreState-of_calls s.prehooks s.pre_once _ p calls;
      close = CloseState-cons _ _ _ _ _ v.close;
      force = CloseState-cons _ _ _ _ _ v.force;
      post = (a, append_assoc (post_calls s.log) (h ∷ []) hs ∙ v.post.1);
      notify = v.notify;
      calm = v.calm;
      ordered = ((calls, d), v.ordered);
    }

post_do-Inv :
    (i : ℕ) (sig : Option ℕ) (c : Once HookBody) (s : Shared)
    → is_done s.pre_once ≡ true
    → (any_closed s ≡ true)
    → All (IsShutDown s.log) s.listeners
    → Inv (record s { post_once = c })
    → Inv (post_do i sig c (record s { post_once = c }))
post_do-Inv i sig fresh s p a d v = record {
  pre = v.pre;
  close = v.close;
  force = v.force;
  post = (a, v.post);
  notify = v.notify;
  calm = v.calm;
  ordered = v.ordered;
}
post_do-Inv i sig (running j b) s p a d v = elim (Bool-cases (i == j)) [
  | inl e ↦ let same : i ≡ j = ground arith in rw e (rw same (post_body-Inv j sig b s p a d v))
  | inr e ↦ rw e v
]
post_do-Inv i sig done s p a d v = v

-- A body of `closeOnce` or `forceOnce` that has ended has shut every listener down.
pub any_closed-IsShutDown :
    (force : Bool) (s : Shared)
    → is_done (closing_once force s) ≡ true
    → Inv s
    → (any_closed s ≡ true) × All (IsShutDown s.log) s.listeners
any_closed-IsShutDown true s e v = (ground arith, CloseState-All _ _ _ _ e v.force)
any_closed-IsShutDown false s e v = (ground arith, CloseState-All _ _ _ _ e v.close)

pub post_step-Inv :
    (i : ℕ) (force : Bool) (sig : Option ℕ) (s : Shared)
    → is_done s.pre_once ≡ true
    → is_done (closing_once force s) ≡ true
    → Inv s
    → Inv (post_do i sig s.post_once s)
post_step-Inv i force sig s p c v =
    let (a, d) = any_closed-IsShutDown force s c v in post_do-Inv i sig s.post_once s p a d v

notify_do-Inv :
    (i : ℕ) (c : Once NotifyBody) (s : Shared)
    → is_done s.pre_once ≡ true
    → is_done s.post_once ≡ true
    → All (IsShutDown s.log) s.listeners
    → Inv (record s { notify_once = c })
    → Inv (notify_do i c (record s { notify_once = c }))
notify_do-Inv i fresh s p q d v = record {
  pre = v.pre;
  close = v.close;
  force = v.force;
  post = v.post;
  notify = (q, v.notify);
  calm = v.calm;
  ordered = v.ordered;
}
notify_do-Inv i (running j b) s p q d v =
    let calls = PreState-done s.prehooks s.pre_once s.log v.pre p in
    let posts = PostState-calls s.posthooks _ s.post_once s.log v.post q in
    if-Inv (i == j) _ _
      (record {
        pre = PreState-of_calls s.prehooks s.pre_once _ p calls;
        close = CloseState-cons _ _ _ _ _ v.close;
        force = CloseState-cons _ _ _ _ _ v.force;
        post = PostState-notified _ _ _ _ v.post;
        notify = (q, refl);
        calm = rw v.calm v.notify.1;
        ordered = (((calls, posts), d), v.ordered);
      })
      v
notify_do-Inv i done s p q d v = v

pub notify_step-Inv :
    (i : ℕ) (force : Bool) (s : Shared)
    → is_done s.pre_once ≡ true
    → is_done (closing_once force s) ≡ true
    → is_done s.post_once ≡ true
    → Inv s
    → Inv (notify_do i s.notify_once s)
notify_step-Inv i force s p c q v =
    notify_do-Inv i s.notify_once s p q (any_closed-IsShutDown force s c v).1 v
