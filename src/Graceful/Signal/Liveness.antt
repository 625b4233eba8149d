-- ===== src/Graceful/Signal/Liveness.antt =====
-- graceful/signal.go: a shutdown comes to its end from wherever it is.
pub mod Runners
pub mod Runs
pub mod Cells
pub mod Lock
pub mod Places
pub mod Cost
pub mod Advance
use goji.Prelude.{
  ℕ, zero, suc, ◌≤◌, Bool, true, false, some, List, [], ◌∷◌, All, ◌≡◌, refl, sym, ap, subst, ◌∙◌,
  arith, ◌⊎◌, inl, inr, Bool-cases, get_elem?,
}
use goji.Graceful.Signal.{
  Once, fresh, running, done, is_done, HookBody, locking, calling, CloseBody, storing, acquiring,
  Hook, Job, waiting, NotifyBody, closing_once, all_finished,
}
use goji.Graceful.Signal.Threads.{
  Pc, at_pre, at_close, at_post, at_notify, returned, Thread, System, Action, work, perform,
  perform_all, start,
}
use goji.Graceful.Signal.Invariant.Passed.{Passed, HasPassed, get_elem?-All}
use goji.Graceful.Signal.Liveness.Runners.{Runner}
use goji.Graceful.Signal.Liveness.Runs.{is_calling}
use goji.Graceful.Signal.Liveness.Cells.{IsAt, IsClosing}
use goji.Graceful.Signal.Liveness.Lock.{not_calling_post, not_calling_pre}
use goji.Graceful.Signal.Liveness.Places.{Sound, perform-Sound, start-Sound, perform_all-Sound}
use goji.Graceful.Signal.Liveness.Cost.{cost, HookGoes, NotifyGoes, CloseGoes, work_jobs-cost}
use goji.Graceful.Signal.Liveness.Advance.{
  IsStep, Progress, pre-Progress, post-Progress, notify-Progress, close-Progress, over-Progress,
}

module _ {ls : List ℕ} {pre post : List Hook} (y : System) (h : Sound ls pre post y) where
  -- `preOnce` is not done: the goroutine in it goes on.
  unlocked_in_pre :
      is_done y.shared.pre_once ≡ false
      → is_calling y.shared.pre_once ≡ false
      → y.shared.locked ≡ false
  unlocked_in_pre d c = h.places.lock.fits ∙ rw c (not_calling_post y.shared h.inv.shared d)

  pre_runs :
      (c : Once HookBody) (j : ℕ) (b : HookBody)
      → y.shared.pre_once ≡ running j b
      → HookGoes j y.shared.locked (running j b)
  pre_runs c j locking e = (refl, unlocked_in_pre (ap is_done e) (ap is_calling e))
  pre_runs c j (calling hs) e = refl

  at_pre-Progress :
      (k : ℕ) (t : Thread)
      → get_elem? y.threads k ≡ some t
      → t.pc ≡ at_pre
      → (c : Once HookBody) → y.shared.pre_once ≡ c
      → Progress y
  at_pre-Progress k t e p fresh q =
      pre-Progress y k t e p (subst (HookGoes k y.shared.locked) (sym q) tt)
  at_pre-Progress k t e p (running j b) q =
      let (u, (f, r)) = subst (Runner (IsAt at_pre) y.threads) q h.places.pre in
      pre-Progress y j u f r
        (subst (HookGoes j y.shared.locked) (sym q) (pre_runs (running j b) j b q))
  at_pre-Progress k t e p done q = over-Progress y k t e at_pre p (rw q (omega arith))

  -- The hooks of `PostHook` are being called.
  calling_post-Progress :
      (c : Once HookBody) → y.shared.post_once ≡ c → is_calling c ≡ true → Progress y
  calling_post-Progress fresh q e = cc
  calling_post-Progress (running j locking) q e = cc
  calling_post-Progress (running j (calling hs)) q e =
      let (u, (f, r)) = subst (Runner (IsAt at_post) y.threads) q h.places.post in
      post-Progress y j u f r (subst (HookGoes j y.shared.locked) (sym q) refl)
  calling_post-Progress done q e = cc

  -- `mu` is free, or the goroutine that holds it goes on.
  lock-cases : is_done y.shared.pre_once ≡ true → (y.shared.locked ≡ false) ⊎ Progress y
  lock-cases d = elim (Bool-cases (is_calling y.shared.post_once)) [
    | inl e ↦ inr (calling_post-Progress y.shared.post_once refl e)
    | inr e ↦ inl (h.places.lock.fits ∙ rw (not_calling_pre y.shared.pre_once d) e)
  ]

  runner-closing :
      (force : Bool) (j : ℕ) (b : CloseBody)
      → closing_once force y.shared ≡ running j b
      → (u : Thread) × ((get_elem? y.threads j ≡ some u) × IsClosing force u)
  runner-closing true j b q = subst (Runner (IsClosing true) y.threads) q h.places.forced
  runner-closing false j b q = subst (Runner (IsClosing false) y.threads) q h.places.close

  close-runs :
      (force : Bool) (j : ℕ) (b : CloseBody)
      → closing_once force y.shared ≡ running j b
      → CloseGoes j y.shared.locked (running j b)
      → Progress y
  close-runs force j b q g =
      let (u, (f, r)) = runner-closing force j b q in
      close-Progress y j u f r.0 (
        subst (λ x. CloseGoes j y.shared.locked (closing_once x y.shared)) (sym r.1)
          (subst (CloseGoes j y.shared.locked) (sym q) g))

  work-Progress :
      (force : Bool) (j : ℕ) (js : List Job)
      → closing_once force y.shared ≡ running j (waiting js)
      → all_finished js ≡ false
      → Progress y
  work-Progress true j js q e =
      let (k, lower) = work_jobs-cost js e in (work true k, (tt, rw q (omega (arith, lower))))
  work-Progress false j js q e =
      let (k, lower) = work_jobs-cost js e in (work false k, (tt, rw q (omega (arith, lower))))

  at_close-Progress :
      (k : ℕ) (t : Thread)
      → get_elem? y.threads k ≡ some t
      → t.pc ≡ at_close
      → is_done y.shared.pre_once ≡ true
      → (c : Once CloseBody) → closing_once t.force y.shared ≡ c
      → Progress y
  at_close-Progress k t e p d fresh q =
      close-Progress y k t e p (subst (CloseGoes k y.shared.locked) (sym q) tt)
  at_close-Progress k t e p d (running j storing) q = close-runs t.force j storing q refl
  at_close-Progress k t e p d (running j acquiring) q = elim (lock-cases d) [
    | inl free ↦ close-runs t.force j acquiring q (refl, free)
    | inr go ↦ go
  ]
  at_close-Progress k t e p d (running j (waiting js)) q = elim (Bool-cases (all_finished js)) [
    | inl f ↦ close-runs t.force j (waiting js) q (refl, f)
    | inr f ↦ work-Progress t.force j js q f
  ]
  at_close-Progress k t e p d done q = over-Progress y k t e at_close p (rw q (omega arith))

  at_post-Progress :
      (k : ℕ) (t : Thread)
      → get_elem? y.threads k ≡ some t
      → t.pc ≡ at_post
      → is_done y.shared.pre_once ≡ true
      → (c : Once HookBody) → y.shared.post_once ≡ c
      → Progress y
  at_post-Progress k t e p d fresh q =
      post-Progress y k t e p (subst (HookGoes k y.shared.locked) (sym q) tt)
  at_post-Progress k t e p d (running j b) q = elim (lock-cases d) [
    | inl free ↦
        let (u, (f, r)) = subst (Runner (IsAt at_post) y.threads) q h.places.post in
        post-Progress y j u f r (subst (HookGoes j y.shared.locked) (sym q) (goes_on b free))
    | inr go ↦ go
  ]
    where
      goes_on : (b : HookBody) → y.shared.locked ≡ false → HookGoes j y.shared.locked (running j b)
      goes_on locking free = (refl, free)
      goes_on (calling hs) free = refl
  at_post-Progress k t e p d done q = over-Progress y k t e at_post p (rw q (omega arith))

  at_notify-Progress :
      (k : ℕ) (t : Thread)
      → get_elem? y.threads k ≡ some t
      → t.pc ≡ at_notify
      → (c : Once NotifyBody) → y.shared.notify_once ≡ c
      → Progress y
  at_notify-Progress k t e p fresh q = notify-Progress y k t e p (subst (NotifyGoes k) (sym q) tt)
  at_notify-Progress k t e p (running j b) q =
      let (u, (f, r)) = subst (Runner (IsAt at_notify) y.threads) q h.places.notify in
      notify-Progress y j u f r (subst (NotifyGoes j) (sym q) refl)
  at_notify-Progress k t e p done q = over-Progress y k t e at_notify p (rw q (omega arith))

  thread-Progress :
      (k : ℕ) (t : Thread)
      → get_elem? y.threads k ≡ some t
      → (p : Pc) → t.pc ≡ p
      → Passed y.shared t.force p
      → (t.pc ≡ returned) ⊎ Progress y
  thread-Progress k t e at_pre p d = inr (at_pre-Progress k t e p y.shared.pre_once refl)
  thread-Progress k t e at_close p d = inr (at_close-Progress k t e p d _ refl)
  thread-Progress k t e at_post p d = inr (at_post-Progress k t e p d.0 y.shared.post_once refl)
  thread-Progress k t e at_notify p d = inr (at_notify-Progress k t e p y.shared.notify_once refl)
  thread-Progress k t e returned p d = inl p

abbrev pub HasReturned : Thread → Type 0
HasReturned t = t.pc ≡ returned

-- Every thread has returned, or one of those at these places goes on.
threads-Progress :
    (y : System) (ts : List Thread)
    → ((k : ℕ) (t : Thread) → get_elem? ts k ≡ some t → HasReturned t ⊎ Progress y)
    → All HasReturned ts ⊎ Progress y
threads-Progress y [] f = inl tt
threads-Progress y (t ∷ ts) f = elim (f 0 t refl) [
  | inr go ↦ inr go
  | inl r ↦ elim (threads-Progress y ts (λ k. f (suc k))) [ inl rs ↦ inl (r, rs) | inr go ↦ inr go ]
]

system-Progress :
    {ls : List ℕ} {pre post : List Hook} (y : System)
    → Sound ls pre post y
    → All HasReturned y.threads ⊎ Progress y
system-Progress y h = threads-Progress y y.threads (λ k t e.
    thread-Progress y h k t e t.pc refl
      (get_elem?-All (HasPassed y.shared) y.threads k t e h.inv.threads))

finish :
    {ls : List ℕ} {pre post : List Hook} (n : ℕ) (y : System)
    → cost y ≤ n
    → Sound ls pre post y
    → (more : List Action) × (All IsStep more × All HasReturned (perform_all more y).threads)
unfolding perform_all
finish zero y c h = elim (system-Progress y h) [
  | inl r ↦ ([], (tt, r))
  | inr (a, (s, lower)) ↦ absurd (omega (arith, c, lower))
]
finish (suc n) y c h = elim (system-Progress y h) [
  | inl r ↦ ([], (tt, r))
  | inr (a, (s, lower)) ↦
      let (more, (q, r)) = finish n (perform a y) (omega (arith, c, lower)) (perform-Sound a y h) in
      (a ∷ more, ((s, q), r))
]

-- For any listeners and hooks and after any interleaving of calls of shutdown there are further
-- steps of the goroutines started so far, and no new call, after which every call of shutdown has
-- returned: none is ever blocked for good.
pub shutdown_finishes :
    (ls : List ℕ) (pre post : List Hook) (acts : List Action)
    → let y = perform_all acts (start ls pre post) in
      (more : List Action) × (All IsStep more × All HasReturned (perform_all more y).threads)
shutdown_finishes ls pre post acts =
    let y = perform_all acts (start ls pre post) in
    finish (cost y) y (omega arith) (perform_all-Sound acts _ (start-Sound ls pre post))
