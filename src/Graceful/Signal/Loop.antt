-- ===== src/Graceful/Signal/Loop.antt =====
-- graceful/signal.go, graceful/graceful.go and graceful/einhorn.go: what is registered, the signals
-- that are listened for, and the loop that turns signals into calls of `shutdown`. A duration is in
-- nanoseconds. Times count from any origin, and the zero `time.Time` is `none`: `Sub` of it is the
-- greatest duration.
use goji.Prelude.{
  ℕ, ◌+◌, ◌-◌, ◌^◌, Bool, true, false, not, ◌&&◌, ◌||◌, Option, none, some, List, [], ◌∷◌, ◌++◌,
  ltb, ◌==◌, if◌then◌else◌,
}
use goji.Prelude.Bytes.{Bytes, codes, str_eq}
use goji.Prelude.Int.{ℤ, pos, negsuc}
use goji.Graceful.Signal.{Hook, with_signal, plain}
use goji.Graceful.Signal.Threads.{Action, shutdown}

-- What `signal.Notify` and `signal.Stop` have made of the channel: `Notify` without a signal relays
-- all of them.
pub data Relay : Type 0 where
  only : List ℕ → Relay
  every : Relay

pub record Config : Type 0 where
  pub listeners : List ℕ
  pub prehooks : List Hook
  pub posthooks : List Hook
  pub double_kick : ℕ
  pub timeout : ℕ
  pub std_signals : List ℕ
  pub relay : Relay

abbrev pub interrupt : ℕ
interrupt = 2

abbrev pub sigusr2 : ℕ
sigusr2 = 12

abbrev pub new_config : Config
new_config = record {
  listeners = [];
  prehooks = [];
  posthooks = [];
  double_kick = 0;
  timeout = 0;
  std_signals = interrupt ∷ [];
  relay = only [];
}

-- `init` of einhorn.go: `atoi` is what `strconv.Atoi` makes of the variable.
abbrev pub einhorn_init : Option ℤ → ℕ → Config → Config
einhorn_init none ppid c = c
einhorn_init (some (negsuc n)) ppid c = c
einhorn_init (some (pos mpid)) ppid c =
    if mpid == ppid then record c { std_signals = c.std_signals ++ sigusr2 ∷ [] } else c

abbrev pub add_relay : Relay → List ℕ → Relay
add_relay r [] = every
add_relay every sig = every
add_relay (only l) sig = only (l ++ sig)

-- `AddSignal`
abbrev pub add_signal : List ℕ → Config → Config
add_signal sig c = record c { relay = add_relay c.relay sig }

-- `HandleSignals`
abbrev pub handle_signals : Config → Config
handle_signals c = add_signal c.std_signals c

-- `ResetSignals`
abbrev pub reset_signals : Config → Config
reset_signals c = record c { relay = only [] }

abbrev pub pre_hook_with_signal : ℕ → Config → Config
pre_hook_with_signal f c = record c { prehooks = c.prehooks ++ with_signal f ∷ [] }

abbrev pub pre_hook : ℕ → Config → Config
pre_hook f c = record c { prehooks = c.prehooks ++ plain f ∷ [] }

abbrev pub post_hook_with_signal : ℕ → Config → Config
post_hook_with_signal f c = record c { posthooks = c.posthooks ++ with_signal f ∷ [] }

abbrev pub post_hook : ℕ → Config → Config
post_hook f c = record c { posthooks = c.posthooks ++ plain f ∷ [] }

-- `appendListener`
abbrev pub append_listener : ℕ → Config → Config
append_listener l c = record c { listeners = c.listeners ++ l ∷ [] }

-- `WrapListener`: a listener that is a `*listener.T` already, or another, for which `listener.Wrap`
-- makes the given one.
pub data NetListener : Type 0 where
  wrapped : ℕ → NetListener
  bare : ℕ → NetListener

abbrev pub wrap_listener : NetListener → Config → ℕ × Config
wrap_listener (wrapped lt) c = (lt, append_listener lt c)
wrap_listener (bare lt) c = (lt, append_listener lt c)

-- `DoubleKickWindow`
abbrev pub double_kick_window : ℤ → Config → Config
double_kick_window (pos d) c = record c { double_kick = d }
double_kick_window (negsuc d) c = c

-- `Timeout`
abbrev pub set_timeout : ℤ → Config → Config
set_timeout (pos d) c = record c { timeout = d }
set_timeout (negsuc d) c = c

abbrev pub relays : Relay → ℕ → Bool
relays every sig = true
relays (only []) sig = false
relays (only (s ∷ l)) sig = s == sig || relays (only l) sig

-- A signal arrives: the channel holds one, and a signal that finds it full is dropped.
abbrev pub deliver : Relay → ℕ → Option ℕ → Option ℕ
deliver r sig (some queued) = some queued
deliver r sig none = if relays r sig then some sig else none

abbrev pub max_duration : ℕ
max_duration = 2 ^ 63 - 1

-- `now.Sub(last)`
abbrev pub elapsed : ℕ → Option ℕ → ℕ
elapsed now none = max_duration
elapsed now (some last) = now - last

abbrev pub is_forced : Config → ℕ → Option ℕ → Bool
is_forced c now last = not (c.double_kick == 0) && ltb (elapsed now last) c.double_kick

-- A call of `shutdown` that the loop starts, and when.
pub record Start : Type 0 where
  pub at_time : ℕ
  pub force : Bool
  pub sig : ℕ

abbrev pub starts_at : ℕ → Bool → ℕ → Start
starts_at now force sig = record { at_time = now; force = force; sig = sig }

abbrev pub timer : Config → ℕ → ℕ → Bool → List Start
timer c now sig force =
    if not (c.timeout == 0) && not force then starts_at (now + c.timeout) true sig ∷ [] else []

-- One round of `sigLoop`, which has received `sig` at the time `now`.
abbrev pub sig_round : Config → ℕ → ℕ → Option ℕ → List Start
sig_round c sig now last =
    let force = is_forced c now last in timer c now sig force ++ starts_at now force sig ∷ []

-- `sigLoop`, the signals being received with their times.
unfoldable pub sig_loop : Config → Option ℕ → List (ℕ × ℕ) → List Start
sig_loop c last [] = []
sig_loop c last ((sig, now) ∷ arrivals) = sig_round c sig now last ++ sig_loop c (some now) arrivals

abbrev pub start_action : Start → Action
start_action s = shutdown s.force (some s.sig)

-- An error of `Accept`: `net.OpError` with its operation and the text of the error inside, or
-- another.
pub data AcceptError : Type 0 where
  op_error : Bytes → Bytes → AcceptError
  other_error : ℕ → AcceptError

abbrev pub err_closing : Bytes
err_closing = codes "use of closed network connection"

-- `peacefulError`: `none` is a nil error.
abbrev pub peaceful_error : Bool → Option AcceptError → Option AcceptError
peaceful_error false err = err
peaceful_error true (some (op_error op err)) =
    if (str_eq op (codes "AcceptEx") || str_eq op (codes "accept")) && str_eq err err_closing
    then none
    else some (op_error op err)
peaceful_error true err = err
