-- ===== src/Graceful/Signal/Invariant/States.antt =====
-- graceful/signal.go: the conditions on each `sync.Once`, when the log grows and when another is done.
use goji.Prelude.{ℕ, Bool, true, Option, List, ◌∷◌, All, All-map, ◌≡◌, refl, arith}
use goji.Graceful.Signal.{
  Once, fresh, running, done, is_done, Hook, Event, called_pre, notified, HookBody, locking,
  calling, Stage, to_close, to_drain, finished, CloseBody, storing, acquiring, waiting, NotifyBody,
}
use goji.Graceful.Signal.Invariant.{
  pre_calls, post_calls, is_close, is_drain, occurs, IsShutDown, PreState, StageState, CloseState,
  PostState, NotifyState,
}

pub occurs-cons :
    (p : Event → Bool) (e : Event) (log : List Event)
    → occurs p log ≡ true
    → occurs p (e ∷ log) ≡ true
occurs-cons p e log h = ground arith

pub StageState-cons :
    (l : ℕ) (t : Stage) (e : Event) (log : List Event)
    → StageState l t log
    → StageState l t (e ∷ log)
StageState-cons l to_close e log h = tt
StageState-cons l to_drain e log h = occurs-cons (is_close l) e log h
StageState-cons l finished e log h =
    (occurs-cons (is_close l) e log h.0, occurs-cons (is_drain l) e log h.1)

pub CloseState-cons :
    (ls : List ℕ) (d : Bool) (c : Once CloseBody) (e : Event) (log : List Event)
    → CloseState ls d c log
    → CloseState ls d c (e ∷ log)
CloseState-cons ls d fresh e log h = tt
CloseState-cons ls d (running i storing) e log h = h
CloseState-cons ls d (running i acquiring) e log h = h
CloseState-cons ls d (running i (waiting js)) e log h =
    (h.0, (h.1.0, All-map (λ j. StageState-cons j.listener j.stage e log) js h.1.1))
CloseState-cons ls d done e log h = (h.0, All-map (λ l. StageState-cons l finished e log) ls h.1)

-- `preOnce` is done: the conditions on it hold.
pub CloseState-done :
    (ls : List ℕ) (d : Bool) (c : Once CloseBody) (log : List Event)
    → CloseState ls d c log
    → CloseState ls true c log
CloseState-done ls d fresh log h = tt
CloseState-done ls d (running i storing) log h = refl
CloseState-done ls d (running i acquiring) log h = refl
CloseState-done ls d (running i (waiting js)) log h = (refl, h.1)
CloseState-done ls d done log h = (refl, h.1)

pub PostState-done :
    (hooks : List Hook) (d : Bool) (c : Once HookBody) (log : List Event)
    → PostState hooks d c log
    → PostState hooks true c log
PostState-done hooks d fresh log h = h
PostState-done hooks d (running i locking) log h = (refl, h.1)
PostState-done hooks d (running i (calling hs)) log h = (refl, h.1)
PostState-done hooks d done log h = (refl, h.1)

pub PostState-pre :
    (hooks : List Hook) (d : Bool) (c : Once HookBody) (h : Hook) (sig : Option ℕ)
    (log : List Event)
    → PostState hooks d c log
    → PostState hooks d c (called_pre h sig ∷ log)
PostState-pre hooks d fresh h sig log p = p
PostState-pre hooks d (running i locking) h sig log p = p
PostState-pre hooks d (running i (calling hs)) h sig log p = p
PostState-pre hooks d done h sig log p = p

pub PostState-notified :
    (hooks : List Hook) (d : Bool) (c : Once HookBody) (log : List Event)
    → PostState hooks d c log
    → PostState hooks d c (notified ∷ log)
PostState-notified hooks d fresh log p = p
PostState-notified hooks d (running i locking) log p = p
PostState-notified hooks d (running i (calling hs)) log p = p
PostState-notified hooks d done log p = p

-- A body of `closeOnce` or `forceOnce` has ended.
pub PostState-mono :
    (hooks : List Hook) (d d' : Bool) (c : Once HookBody) (log : List Event)
    → (d ≡ true → d' ≡ true)
    → PostState hooks d c log
    → PostState hooks d' c log
PostState-mono hooks d d' fresh log f p = p
PostState-mono hooks d d' (running i locking) log f p = (f p.0, p.1)
PostState-mono hooks d d' (running i (calling hs)) log f p = (f p.0, p.1)
PostState-mono hooks d d' done log f p = (f p.0, p.1)

pub PreState-done :
    (hooks : List Hook) (c : Once HookBody) (log : List Event)
    → PreState hooks c log
    → is_done c ≡ true
    → pre_calls log ≡ hooks
PreState-done hooks fresh log p e = cc
PreState-done hooks (running i b) log p e = cc
PreState-done hooks done log p e = p

pub PreState-of_calls :
    (hooks : List Hook) (c : Once HookBody) (log : List Event)
    → is_done c ≡ true
    → pre_calls log ≡ hooks
    → PreState hooks c log
PreState-of_calls hooks fresh log e p = cc
PreState-of_calls hooks (running i b) log e p = cc
PreState-of_calls hooks done log e p = p

pub PostState-calls :
    (hooks : List Hook) (d : Bool) (c : Once HookBody) (log : List Event)
    → PostState hooks d c log
    → is_done c ≡ true
    → post_calls log ≡ hooks
PostState-calls hooks d fresh log p e = cc
PostState-calls hooks d (running i b) log p e = cc
PostState-calls hooks d done log p e = p.1

pub CloseState-All :
    (ls : List ℕ) (d : Bool) (c : Once CloseBody) (log : List Event)
    → is_done c ≡ true
    → CloseState ls d c log
    → All (IsShutDown log) ls
CloseState-All ls d fresh log e p = cc
CloseState-All ls d (running i b) log e p = cc
CloseState-All ls d done log e p = p.1

pub NotifyState-done :
    (d : Bool) (c : Once NotifyBody) (b : Bool) → NotifyState d c b → NotifyState true c b
NotifyState-done d fresh b p = p
NotifyState-done d (running i n) b p = (refl, p.1)
NotifyState-done d done b p = (refl, p.1)
