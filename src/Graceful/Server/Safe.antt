-- ===== src/Graceful/Server/Safe.antt =====
-- graceful/serve13.go with graceful/listener: what a drain does to a server's connections.
use goji.Prelude.{
  ℕ, ◌<◌, ◌≡◌, ◌≢◌, refl, ap, subst, Bool, true, false, Option, some, List, [], ◌∷◌, arith, update,
  update-all, if◌then◌else◌,
}
use goji.Graceful.Listener.Conn.{Conn, automatic, init, read}
use goji.Graceful.Listener.Counting.{live}
use goji.Graceful.Listener.Shards.{new_world-IsTracked}
use goji.Graceful.Listener.Invariant.{IsTracked}
use goji.Graceful.Listener.After.{After, After-some}
use goji.Graceful.Listener.History.{
  Call, accepts, reads, closes, closes_if_idle, marks_idle, disowns, snapshots, call, run, Fits,
  call-Goes, run-some,
}
use goji.Graceful.Server.Run.{
  Phase, absent, waiting, working, failed, hijacked, ended, Served, ServerEvent, opens, receives,
  finishes, hijacks, ends, begins_drain, drains_conn, exists, is_working, is_open, is_managed,
  accepted, received, calls_of, phases_of, with_phases, serve_event, serve_events, new_served,
}
use goji.Graceful.Server.Sane.{
  IsSane, accepts-others, reads-others, marks_idle-others, disowns-others, closes-others,
  closes_if_idle-IsSane, snapshots-IsSane, accepts-own, reads-own, marks_idle-own, disowns-own,
  closes-own,
}

-- The account of the shard is right, and every connection is as the server sees it.
pub record IsServed (s : Served) : Type 0 where
  pub tracked : IsTracked s.world
  pub sane : (c : ℕ) → IsSane s.world c (s.phases c)

abbrev pub GoesOn : Option Served → Type 0
GoesOn o = (s : Served) × (o ≡ some s) × IsServed s

-- An event with one call, and one without.
one-call :
    (x : Call) (phases : ℕ → Phase) (s : Served)
    → IsTracked s.world
    → Fits x s.world
    → ((j : ℕ) → After (λ w'. IsSane w' j (phases j)) (call automatic x s.world))
    → GoesOn (with_phases phases (run automatic (x ∷ []) s.world))
unfolding run
one-call x phases s t fits sane =
    let (w', e, t') = call-Goes automatic x s.world t fits in
    (
      record { world = w'; phases = phases },
      ap (with_phases phases) (run-some automatic x [] s.world w' e),
      record {
        tracked = t';
        sane = λ j.
            After-some (λ w''. IsSane w'' j (phases j)) (call automatic x s.world) w' e (sane j);
      },
    )

no-call :
    (c : ℕ) (s : Served)
    → IsServed s
    → GoesOn (with_phases (update c (s.phases c) s.phases) (run automatic [] s.world))
unfolding run
no-call c s h = (
  record { world = s.world; phases = update c (s.phases c) s.phases },
  refl,
  record {
    tracked = h.tracked;
    sane = update-all (IsSane s.world) c (s.phases c) s.phases (h.sane c) (λ j other. h.sane j);
  },
)

-- A call on connection `c`, after which its phase is `p`.
call-GoesOn :
    (x : Call) (c : ℕ) (p : Phase) (s : Served)
    → IsServed s
    → Fits x s.world
    → After (λ w'. IsSane w' c p) (call automatic x s.world)
    → ((j : ℕ) → j ≢ c → After (λ w'. IsSane w' j (s.phases j)) (call automatic x s.world))
    → GoesOn (with_phases (update c p s.phases) (run automatic (x ∷ []) s.world))
call-GoesOn x c p s h fits own others = one-call x (update c p s.phases) s h.tracked fits (
    update-all (λ j q. After (λ w'. IsSane w' j q) (call automatic x s.world)) c p s.phases own
      others)

-- The call is made where the phase allows it.
guarded :
    (b : Bool) (x : Call) (c : ℕ) (q : Phase) (s : Served)
    → IsServed s
    → (b ≡ true → Fits x s.world × After (λ w'. IsSane w' c q) (call automatic x s.world))
    → ((j : ℕ) → j ≢ c → After (λ w'. IsSane w' j (s.phases j)) (call automatic x s.world))
    → GoesOn (
        with_phases
          (update c (if b then q else s.phases c) s.phases)
          (run automatic (if b then x ∷ [] else []) s.world))
guarded true x c q s h own others =
    let (fits, after) = own refl in call-GoesOn x c q s h fits after others
guarded false x c q s h own others = no-call c s h

working_phase : (p : Phase) → is_working p ≡ true → p ≡ working
working_phase absent e = cc
working_phase waiting e = cc
working_phase working e = refl
working_phase failed e = cc
working_phase hijacked e = cc
working_phase ended e = cc

is_managed-exists : (p : Phase) → is_managed p ≡ true → exists p ≡ true
is_managed-exists absent e = cc
is_managed-exists waiting e = refl
is_managed-exists working e = refl
is_managed-exists failed e = refl
is_managed-exists hijacked e = refl
is_managed-exists ended e = refl

is_open-exists : (p : Phase) → is_open p ≡ true → exists p ≡ true
is_open-exists absent e = cc
is_open-exists waiting e = refl
is_open-exists working e = refl
is_open-exists failed e = cc
is_open-exists hijacked e = cc
is_open-exists ended e = cc

working-IsSane :
    (c : ℕ) (s : Served) → IsServed s → is_working (s.phases c) ≡ true → IsSane s.world c working
working-IsSane c s h e = subst (IsSane s.world c) (working_phase (s.phases c) e) (h.sane c)

draining :
    (b : Bool) (c : ℕ) (s : Served)
    → IsServed s
    → (b ≡ true → c < s.world.count)
    → GoesOn
        (with_phases s.phases (run automatic (if b then closes_if_idle c ∷ [] else []) s.world))
unfolding run
draining true c s h lt =
    one-call (closes_if_idle c) s.phases s h.tracked (lt refl)
      (λ j. closes_if_idle-IsSane s.world c j (s.phases j) (h.sane j))
draining false c s h lt = (s, refl, h)

-- No event panics, and each keeps the account.
pub serve_event-GoesOn : (e : ServerEvent) (s : Served) → IsServed s → GoesOn (serve_event e s)
unfolding serve_event calls_of phases_of
serve_event-GoesOn opens s h =
    call-GoesOn accepts s.world.count (accepted (init s.world)) s h tt (accepts-own s.world)
      (λ j other. accepts-others s.world j (s.phases j) other (h.sane j))
serve_event-GoesOn (receives ok c) s h =
    guarded (is_open (s.phases c)) (reads ok c) c
      (received (s.phases c) ok (read automatic ok c s.world).0) s h
      (λ e. (
        (h.sane c).0 (is_open-exists (s.phases c) e),
        reads-own s.world ok c (s.phases c) e (h.sane c),
      ))
      (λ j other. reads-others s.world ok c j (s.phases j) other (h.sane j))
serve_event-GoesOn (finishes c) s h =
    guarded (is_working (s.phases c)) (marks_idle c) c waiting s h
      (λ e. let o = working-IsSane c s h e in (o.0 refl, marks_idle-own s.world c o))
      (λ j other. marks_idle-others s.world c j (s.phases j) other (h.sane j))
serve_event-GoesOn (hijacks c) s h =
    guarded (is_working (s.phases c)) (disowns c) c hijacked s h
      (λ e.
        let o = working-IsSane c s h e in ((o.0 refl, ground (arith, o)), disowns-own s.world c o))
      (λ j other. disowns-others s.world c j (s.phases j) other (h.sane j))
serve_event-GoesOn (ends c) s h =
    guarded (is_managed (s.phases c)) (closes c) c ended s h
      (λ e. (
        (h.sane c).0 (is_managed-exists (s.phases c) e),
        closes-own s.world c (s.phases c) e (h.sane c),
      ))
      (λ j other. closes-others s.world c j (s.phases j) other (h.sane j))
serve_event-GoesOn begins_drain s h =
    one-call (snapshots false true) s.phases s h.tracked tt
      (λ j. snapshots-IsSane s.world j (s.phases j) (h.sane j))
serve_event-GoesOn (drains_conn c) s h = draining (exists (s.phases c)) c s h (h.sane c).0

pub new_served-IsServed : IsServed new_served
new_served-IsServed = record { tracked = new_world-IsTracked; sane = λ c. ground arith }

pub serve_events-GoesOn :
    (es : List ServerEvent) (s : Served) → IsServed s → GoesOn (serve_events es s)
unfolding serve_events
serve_events-GoesOn [] s h = (s, refl, h)
serve_events-GoesOn (e ∷ es) s h =
    let (s1, e1, h1) = serve_event-GoesOn e s h in rw e1 (serve_events-GoesOn es s1 h1)

-- A request in progress has its connection.
abbrev pub Spared : Phase → Conn → Type 0
Spared working k = (live k ≡ true) × (k.closes ≡ 0)
Spared _ k = Unit
