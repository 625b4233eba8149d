-- ===== src/Graceful/Signal/Liveness/Places.antt =====
-- graceful/signal.go: after any steps the runners are in their places and `mu` is accounted for.
use goji.Prelude.{
  ℕ, Bool, true, false, Option, none, some, List, [], ◌∷◌, ◌≡◌, refl, sym, subst, get_elem?,
}
use goji.Graceful.Signal.{
  Once, fresh, running, done, CloseBody, storing, acquiring, Hook, Event, waiting, Shared,
  closing_once, set_closing_once,
}
use goji.Graceful.Signal.Threads.{
  at_pre, at_close, at_post, at_notify, Thread, work_cell, System, Action, advance, work, shutdown,
  perform, perform_all, advance_thread, start,
}
use goji.Graceful.Signal.Invariant.{Inv}
use goji.Graceful.Signal.Invariant.Passed.{HasPassed, get_elem?-All}
use goji.Graceful.Signal.Invariant.History.{SystemInv, perform-SystemInv, start-SystemInv}
use goji.Graceful.Signal.Liveness.Runners.{Runner, append-Runner}
use goji.Graceful.Signal.Liveness.Runs.{do_once-CellMoves}
use goji.Graceful.Signal.Liveness.Cells.{CellStep-Runner, IsAt, IsClosing, Places, stays_at}
use goji.Graceful.Signal.Liveness.Lock.{LockFits-same, do_once-LockFits}

pub advance-Places :
    (i : ℕ) (o : Option Thread) (y : System)
    → get_elem? y.threads i ≡ o
    → Inv y.shared
    → ((t : Thread) → o ≡ some t → HasPassed y.shared t)
    → Places y
    → Places (advance_thread i o y)
advance-Places i none y e v h q = q
advance-Places i (some t) y e v h q =
    let s = y.shared in
    let m = do_once-CellMoves i t.force t.sig t.pc s in
    record {
      pre =
          CellStep-Runner (IsAt at_pre) y.threads i t _ _ _ e m.pre
            (λ p d. stays_at t.force s t.pc at_pre p (rw d refl)) q.pre;
      close =
          CellStep-Runner (IsClosing false) y.threads i t _ _ _ e m.close
            (λ p d. stays_at t.force s t.pc at_close p.0 (rw p.1 (rw d refl))) q.close;
      forced =
          CellStep-Runner (IsClosing true) y.threads i t _ _ _ e m.forced
            (λ p d. stays_at t.force s t.pc at_close p.0 (rw p.1 (rw d refl))) q.forced;
      post =
          CellStep-Runner (IsAt at_post) y.threads i t _ _ _ e m.post
            (λ p d. stays_at t.force s t.pc at_post p (rw d refl)) q.post;
      notify =
          CellStep-Runner (IsAt at_notify) y.threads i t _ _ _ e m.notify
            (λ p d. stays_at t.force s t.pc at_notify p (rw d refl)) q.notify;
      lock = do_once-LockFits i t.force t.sig t.pc s (h t refl) v q.lock;
    }

pub closing-Runner :
    (P : Thread → Type 0) (ts : List Thread) (force : Bool) (k : ℕ) (c : Once CloseBody)
    (s : Shared)
    → closing_once force s ≡ c
    → Runner P ts c
    → Runner P ts (closing_once force (work_cell force k c s))
closing-Runner P ts force k fresh s e r = rw e r
closing-Runner P ts force k (running i storing) s e r = rw e r
closing-Runner P ts force k (running i acquiring) s e r = rw e r
closing-Runner P ts true k (running i (waiting js)) s e r = r
closing-Runner P ts false k (running i (waiting js)) s e r = r
closing-Runner P ts force k done s e r = rw e r

module _ {X : Type 0} (f : Shared → X) where
  pub work_cell-same :
      (force : Bool)
      → ((s : Shared) (c : Once CloseBody) (g : List Event)
          → f (set_closing_once force c (record s { log = g })) ≡ f s)
      → (k : ℕ) (c : Once CloseBody) (s : Shared) → f (work_cell force k c s) ≡ f s
  work_cell-same force h k fresh s = refl
  work_cell-same force h k (running i storing) s = refl
  work_cell-same force h k (running i acquiring) s = refl
  work_cell-same force h k (running i (waiting js)) s = h s _ _
  work_cell-same force h k done s = refl

pub work-Places : (force : Bool) (k : ℕ) (y : System) → Places y → Places (perform (work force k) y)
work-Places true k y q =
    let s = y.shared in
    record {
      pre =
          subst (Runner (IsAt at_pre) y.threads)
            (sym (work_cell-same (λ s. s.pre_once) true (λ s c g. refl) k s.force_once s)) q.pre;
      close =
          subst (Runner (IsClosing false) y.threads)
            (sym (work_cell-same (λ s. s.close_once) true (λ s c g. refl) k s.force_once s))
            q.close;
      forced = closing-Runner (IsClosing true) y.threads true k s.force_once s refl q.forced;
      post =
          subst (Runner (IsAt at_post) y.threads)
            (sym (work_cell-same (λ s. s.post_once) true (λ s c g. refl) k s.force_once s)) q.post;
      notify =
          subst (Runner (IsAt at_notify) y.threads)
            (sym (work_cell-same (λ s. s.notify_once) true (λ s c g. refl) k s.force_once s))
            q.notify;
      lock =
          LockFits-same s _ (work_cell-same (λ s. s.locked) true (λ s c g. refl) k s.force_once s)
            (work_cell-same (λ s. s.pre_once) true (λ s c g. refl) k s.force_once s)
            (work_cell-same (λ s. s.post_once) true (λ s c g. refl) k s.force_once s) q.lock;
    }
work-Places false k y q =
    let s = y.shared in
    record {
      pre =
          subst (Runner (IsAt at_pre) y.threads)
            (sym (work_cell-same (λ s. s.pre_once) false (λ s c g. refl) k s.close_once s)) q.pre;
      close = closing-Runner (IsClosing false) y.threads false k s.close_once s refl q.close;
      forced =
          subst (Runner (IsClosing true) y.threads)
            (sym (work_cell-same (λ s. s.force_once) false (λ s c g. refl) k s.close_once s))
            q.forced;
      post =
          subst (Runner (IsAt at_post) y.threads)
            (sym (work_cell-same (λ s. s.post_once) false (λ s c g. refl) k s.close_once s)) q.post;
      notify =
          subst (Runner (IsAt at_notify) y.threads)
            (sym (work_cell-same (λ s. s.notify_once) false (λ s c g. refl) k s.close_once s))
            q.notify;
      lock =
          LockFits-same s _ (work_cell-same (λ s. s.locked) false (λ s c g. refl) k s.close_once s)
            (work_cell-same (λ s. s.pre_once) false (λ s c g. refl) k s.close_once s)
            (work_cell-same (λ s. s.post_once) false (λ s c g. refl) k s.close_once s) q.lock;
    }

perform-Places :
    {ls : List ℕ} {pre post : List Hook} (a : Action) (y : System)
    → SystemInv ls pre post y
    → Places y
    → Places (perform a y)
perform-Places (advance i) y v q =
    advance-Places i (get_elem? y.threads i) y refl v.shared
      (λ t e. get_elem?-All (HasPassed y.shared) y.threads i t e v.threads) q
perform-Places (work force k) y v q = work-Places force k y q
perform-Places (shutdown force sig) y v q = record {
  pre = append-Runner _ y.threads _ y.shared.pre_once q.pre;
  close = append-Runner _ y.threads _ y.shared.close_once q.close;
  forced = append-Runner _ y.threads _ y.shared.force_once q.forced;
  post = append-Runner _ y.threads _ y.shared.post_once q.post;
  notify = append-Runner _ y.threads _ y.shared.notify_once q.notify;
  lock = record { fits = q.lock.fits };
}

-- The two together.
pub record Sound (ls : List ℕ) (pre post : List Hook) (y : System) : Type 0 where
  pub inv : SystemInv ls pre post y
  pub places : Places y

pub perform-Sound :
    {ls : List ℕ} {pre post : List Hook} (a : Action) (y : System)
    → Sound ls pre post y
    → Sound ls pre post (perform a y)
perform-Sound a y h = record {
  inv = perform-SystemInv a y h.inv;
  places = perform-Places a y h.inv h.places;
}

pub perform_all-Sound :
    {ls : List ℕ} {pre post : List Hook} (acts : List Action) (y : System)
    → Sound ls pre post y
    → Sound ls pre post (perform_all acts y)
unfolding perform_all
perform_all-Sound [] y h = h
perform_all-Sound (a ∷ acts) y h = perform_all-Sound acts (perform a y) (perform-Sound a y h)

pub start-Sound : (ls : List ℕ) (pre post : List Hook) → Sound ls pre post (start ls pre post)
start-Sound ls pre post = record {
  inv = start-SystemInv ls pre post;
  places = record {
    pre = tt;
    close = tt;
    forced = tt;
    post = tt;
    notify = tt;
    lock = record { fits = refl };
  };
}
