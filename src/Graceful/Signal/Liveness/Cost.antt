-- ===== src/Graceful/Signal/Liveness/Cost.antt =====
-- graceful/signal.go: how many steps are left, and the steps that lower the number.
use goji.Prelude.{
  ℕ, zero, suc, ◌+◌, ◌*◌, ◌≤◌, Bool, true, false, Option, some, List, [], ◌∷◌, ==_self, length, map,
  ◌≡◌, refl, ap, arith, inl, inr, Bool-cases, get_elem?,
}
use mathlib.Core.Option.{some-injective}
use goji.Graceful.Signal.{
  Once, fresh, running, done, HookBody, locking, calling, CloseBody, storing, acquiring, Stage,
  to_close, to_drain, finished, Job, is_finished, new_job, NotifyBody, waiting, Shared,
  set_closing_once, pre_do, post_do, close_do, notify_do, all_finished, next_stage,
}
use goji.Graceful.Signal.Threads.{
  Pc, at_pre, at_close, at_post, at_notify, returned, Thread, work_jobs, set_thread, System,
}

-- The steps that a body of hooks, of which there are `n`, has left.
abbrev pub hook_cost : ℕ → Once HookBody → ℕ
hook_cost n fresh = 3 + n
hook_cost n (running i locking) = 2 + n
hook_cost n (running i (calling hs)) = 1 + length hs
hook_cost n done = 0

abbrev pub stage_cost : Stage → ℕ
stage_cost to_close = 2
stage_cost to_drain = 1
stage_cost finished = 0

abbrev pub jobs_cost : List Job → ℕ
jobs_cost [] = 0
jobs_cost (j ∷ js) = stage_cost j.stage + jobs_cost js

abbrev pub close_cost : ℕ → Once CloseBody → ℕ
close_cost n fresh = 4 + 2 * n
close_cost n (running i storing) = 3 + 2 * n
close_cost n (running i acquiring) = 2 + 2 * n
close_cost n (running i (waiting js)) = 1 + jobs_cost js
close_cost n done = 0

abbrev pub notify_cost : Once NotifyBody → ℕ
notify_cost fresh = 2
notify_cost (running i b) = 1
notify_cost done = 0

abbrev pub pc_cost : Pc → ℕ
pc_cost at_pre = 4
pc_cost at_close = 3
pc_cost at_post = 2
pc_cost at_notify = 1
pc_cost returned = 0

abbrev pub cells_cost : Shared → ℕ
cells_cost s =
    hook_cost (length s.prehooks) s.pre_once
    + close_cost (length s.listeners) s.close_once
    + close_cost (length s.listeners) s.force_once
    + hook_cost (length s.posthooks) s.post_once
    + notify_cost s.notify_once

abbrev pub threads_cost : List Thread → ℕ
threads_cost [] = 0
threads_cost (t ∷ ts) = pc_cost t.pc + threads_cost ts

abbrev pub cost : System → ℕ
cost y = cells_cost y.shared + threads_cost y.threads

jobs_cost-new : (ls : List ℕ) → jobs_cost (map new_job ls) ≡ 2 * length ls
jobs_cost-new [] = refl
jobs_cost-new (l ∷ ls) = omega (arith, jobs_cost-new ls)

pub threads_cost-set :
    (ts : List Thread) (i : ℕ) (t : Thread) (p : Pc)
    → get_elem? ts i ≡ some t
    → threads_cost (set_thread ts i p) + pc_cost t.pc ≡ threads_cost ts + pc_cost p
threads_cost-set [] i t p e = cc
threads_cost-set (u ∷ ts) zero t p e =
    let same : u.pc ≡ t.pc = ap (λ v. v.pc) (some-injective _ _ e) in rw same (omega arith)
threads_cost-set (u ∷ ts) (suc i) t p e = omega (arith, threads_cost-set ts i t p e)

-- The body of a goroutine at its `Do` can go on.
abbrev pub HookGoes : ℕ → Bool → Once HookBody → Type 0
HookGoes k locked fresh = Unit
HookGoes k locked (running j locking) = (j ≡ k) × (locked ≡ false)
HookGoes k locked (running j (calling hs)) = j ≡ k
HookGoes k locked done = true ≡ false

pub pre_do-cost :
    (k : ℕ) (sig : Option ℕ) (c : Once HookBody) (s : Shared)
    → HookGoes k s.locked c
    → suc (cells_cost (pre_do k sig c (record s { pre_once = c })))
      ≤ cells_cost (record s { pre_once = c })
pre_do-cost k sig fresh s g = omega arith
pre_do-cost k sig (running j locking) s g = rw g.0 (rw (==_self k) (rw g.1 (omega arith)))
pre_do-cost k sig (running j (calling [])) s g = rw g (rw (==_self k) (omega arith))
pre_do-cost k sig (running j (calling (h ∷ hs))) s g = rw g (rw (==_self k) (omega arith))
pre_do-cost k sig done s g = cc

pub post_do-cost :
    (k : ℕ) (sig : Option ℕ) (c : Once HookBody) (s : Shared)
    → HookGoes k s.locked c
    → suc (cells_cost (post_do k sig c (record s { post_once = c })))
      ≤ cells_cost (record s { post_once = c })
post_do-cost k sig fresh s g = omega arith
post_do-cost k sig (running j locking) s g = rw g.0 (rw (==_self k) (rw g.1 (omega arith)))
post_do-cost k sig (running j (calling [])) s g = rw g (rw (==_self k) (omega arith))
post_do-cost k sig (running j (calling (h ∷ hs))) s g = rw g (rw (==_self k) (omega arith))
post_do-cost k sig done s g = cc

abbrev pub NotifyGoes : ℕ → Once NotifyBody → Type 0
NotifyGoes k fresh = Unit
NotifyGoes k (running j b) = j ≡ k
NotifyGoes k done = true ≡ false

pub notify_do-cost :
    (k : ℕ) (c : Once NotifyBody) (s : Shared)
    → NotifyGoes k c
    → suc (cells_cost (notify_do k c (record s { notify_once = c })))
      ≤ cells_cost (record s { notify_once = c })
notify_do-cost k fresh s g = omega arith
notify_do-cost k (running j b) s g = rw g (rw (==_self k) (omega arith))
notify_do-cost k done s g = cc

abbrev pub CloseGoes : ℕ → Bool → Once CloseBody → Type 0
CloseGoes k locked fresh = Unit
CloseGoes k locked (running j storing) = j ≡ k
CloseGoes k locked (running j acquiring) = (j ≡ k) × (locked ≡ false)
CloseGoes k locked (running j (waiting js)) = (j ≡ k) × (all_finished js ≡ true)
CloseGoes k locked done = true ≡ false

pub close_do-cost :
    (k : ℕ) (force : Bool) (c : Once CloseBody) (s : Shared)
    → CloseGoes k s.locked c
    → let s' = set_closing_once force c s in
      suc (cells_cost (close_do k force c s')) ≤ cells_cost s'
close_do-cost k true fresh s g = omega arith
close_do-cost k true (running j storing) s g = rw g (rw (==_self k) (omega arith))
close_do-cost k true (running j acquiring) s g =
    rw g.0 (rw (==_self k) (rw g.1 (omega (arith, jobs_cost-new s.listeners))))
close_do-cost k true (running j (waiting js)) s g = rw g.0 (rw (==_self k) (rw g.1 (omega arith)))
close_do-cost k true done s g = cc
close_do-cost k false fresh s g = omega arith
close_do-cost k false (running j storing) s g = rw g (rw (==_self k) (omega arith))
close_do-cost k false (running j acquiring) s g =
    rw g.0 (rw (==_self k) (rw g.1 (omega (arith, jobs_cost-new s.listeners))))
close_do-cost k false (running j (waiting js)) s g = rw g.0 (rw (==_self k) (rw g.1 (omega arith)))
close_do-cost k false done s g = cc

-- A goroutine for a listener that is not at its end lowers the number.
pub work_jobs-cost :
    (js : List Job)
    → all_finished js ≡ false
    → (k : ℕ) × (suc (jobs_cost (work_jobs js k)) ≤ jobs_cost js)
work_jobs-cost [] e = cc
work_jobs-cost (j ∷ js) e = elim (Bool-cases (is_finished j.stage)) [
  | inl f ↦ let (k, h) = work_jobs-cost js (ground arith) in (suc k, omega (arith, h))
  | inr f ↦ (0, omega (arith, stage_lowers j.stage f))
]
  where
    stage_lowers :
        (t : Stage) → is_finished t ≡ false → suc (stage_cost (next_stage t)) ≤ stage_cost t
    stage_lowers to_close e = omega arith
    stage_lowers to_drain e = omega arith
    stage_lowers finished e = cc
