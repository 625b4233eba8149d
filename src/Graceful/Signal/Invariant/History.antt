-- ===== src/Graceful/Signal/Invariant/History.antt =====
-- graceful/signal.go: what holds after any actions of the goroutines, in any order.
use goji.Prelude.{
  ℕ, Bool, Option, none, some, List, [], ◌∷◌, All, All-append, ◌≡◌, refl, ◌∙◌, get_elem?,
}
use goji.Graceful.Signal.{Hook, Shared, new_shared}
use goji.Graceful.Signal.Threads.{
  Pc, at_pre, at_close, at_post, at_notify, returned, Thread, System, do_once, advance_thread,
  Action, advance, work, shutdown, perform, perform_all, start,
}
use goji.Graceful.Signal.Invariant.{Inv}
use goji.Graceful.Signal.Invariant.Moves.{pre_step-Inv, post_step-Inv, notify_step-Inv}
use goji.Graceful.Signal.Invariant.Closing.{close_step-Inv, work-Inv}
use goji.Graceful.Signal.Invariant.Grows.{do_once-Grows, work-Grows, IsSame, Grows}
use goji.Graceful.Signal.Invariant.Passed.{
  Passed, HasPassed, Grows-Passed, Grows-threads, next_pc-Passed, set_thread-HasPassed,
  get_elem?-All,
}

-- The state of a program that registered these.
pub record SystemInv (ls : List ℕ) (pre post : List Hook) (y : System) : Type 0 where
  pub same : IsSame (new_shared ls pre post) y.shared
  pub shared : Inv y.shared
  pub threads : All (HasPassed y.shared) y.threads

do_once-Inv :
    (i : ℕ) (force : Bool) (sig : Option ℕ) (p : Pc) (s : Shared)
    → Passed s force p
    → Inv s
    → Inv (do_once i force sig p s)
do_once-Inv i force sig at_pre s h v = pre_step-Inv i sig s v
do_once-Inv i force sig at_close s h v = close_step-Inv i force s h v
do_once-Inv i force sig at_post s h v = post_step-Inv i force sig s h.0 h.1 v
do_once-Inv i force sig at_notify s h v = notify_step-Inv i force s h.0.0 h.0.1 h.1 v
do_once-Inv i force sig returned s h v = v

IsSame-Grows : (a : Shared) {s t : Shared} → IsSame a s → Grows s t → IsSame a t
IsSame-Grows a h g = let (l, (p, q)) = g.same in (l ∙ h.0, (p ∙ h.1.0, q ∙ h.1.1))

module _ {ls : List ℕ} {pre post : List Hook} where
  advance-SystemInv :
      (i : ℕ) (o : Option Thread) (y : System)
      → get_elem? y.threads i ≡ o
      → SystemInv ls pre post y
      → SystemInv ls pre post (advance_thread i o y)
  advance-SystemInv i none y e v = v
  advance-SystemInv i (some t) y e v =
      let here = get_elem?-All (HasPassed y.shared) y.threads i t e v.threads in
      let g = do_once-Grows i t.force t.sig t.pc y.shared in
      record {
        same = IsSame-Grows (new_shared ls pre post) v.same g;
        shared = do_once-Inv i t.force t.sig t.pc y.shared here v.shared;
        threads =
            set_thread-HasPassed _ y.threads i t _ e
              (Grows-Passed g t.force _ (next_pc-Passed y.shared t.force t.pc here))
              (Grows-threads g y.threads v.threads);
      }

  pub perform-SystemInv :
      (a : Action) (y : System) → SystemInv ls pre post y → SystemInv ls pre post (perform a y)
  perform-SystemInv (advance i) y v = advance-SystemInv i (get_elem? y.threads i) y refl v
  perform-SystemInv (work force k) y v = record {
    same = IsSame-Grows (new_shared ls pre post) v.same (work-Grows force k y.shared);
    shared = work-Inv force k y.shared v.shared;
    threads = Grows-threads (work-Grows force k y.shared) y.threads v.threads;
  }
  perform-SystemInv (shutdown force sig) y v = record {
    same = v.same;
    shared = v.shared;
    threads = All-append (HasPassed y.shared) y.threads _ v.threads (tt, tt);
  }

  pub perform_all-SystemInv :
      (acts : List Action) (y : System)
      → SystemInv ls pre post y
      → SystemInv ls pre post (perform_all acts y)
  unfolding perform_all
  perform_all-SystemInv [] y v = v
  perform_all-SystemInv (a ∷ acts) y v =
      perform_all-SystemInv acts (perform a y) (perform-SystemInv a y v)

pub start-SystemInv :
    (ls : List ℕ) (pre post : List Hook) → SystemInv ls pre post (start ls pre post)
start-SystemInv ls pre post = record {
  same = (refl, (refl, refl));
  shared = record {
    pre = refl;
    close = tt;
    force = tt;
    post = refl;
    notify = refl;
    calm = refl;
    ordered = tt;
  };
  threads = tt;
}
