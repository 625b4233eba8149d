-- ===== src/Graceful/Server/Drained.antt =====
-- graceful/serve13.go with graceful/listener: what is left of a server's connections after a drain.
use goji.Prelude.{
  ℕ, ◌≤◌, ◌<◌, ◌≡◌, refl, sym, ◌∙◌, ap, subst, Bool, true, false, Option, none, some, List, [], ◌∷◌,
  arith, ◌⊎◌, inl, inr, if◌then◌else◌,
}
use goji.Graceful.Listener.Conn.{automatic, Conn, World}
use goji.Graceful.Listener.CloseConns.{snapshot}
use goji.Graceful.Listener.After.{
  After, After-some, IsDraining, call-IsDraining, run-kept, run-Occurs,
}
use goji.Graceful.Listener.Drain.{
  Settled, Draining, call-Draining, call_closes_if_idle, idle-Settled,
}
use goji.Graceful.Listener.History.{Call, closes_if_idle, call, run}
use goji.Graceful.Server.Run.{
  Phase, absent, waiting, working, failed, hijacked, ended, Served, ServerEvent, begins_drain,
  drains_conn, exists, calls_of, phases_of, with_phases, serve_event, then_serve, serve_events,
  new_served,
}
use goji.Graceful.Server.Sane.{IsSane}
use goji.Graceful.Server.Safe.{
  IsServed, serve_event-GoesOn, serve_events-GoesOn, new_served-IsServed,
}

-- The event is one of them.
abbrev pub Comes : ServerEvent → List ServerEvent → Type 0
Comes x [] = ⊥
Comes x (e ∷ es) = (e ≡ x) ⊎ Comes x es

world-with_phases :
    (phases : ℕ → Phase) (o : Option World) (s : Served)
    → with_phases phases o ≡ some s
    → o ≡ some s.world
world-with_phases phases none s e = cc
world-with_phases phases (some w) s e =
    let same : record { world = w; phases = phases } ≡ s = cc in ap (λ t. some t.world) same

-- What every call keeps, an event keeps.
event-kept :
    (P : World → Type 0)
    → ((x : Call) (w : World) → P w → After P (call automatic x w))
    → (e : ServerEvent) (s s' : Served) → serve_event e s ≡ some s'
    → P s.world
    → P s'.world
unfolding serve_event
event-kept P kept e s s' done h =
    After-some P (run automatic (calls_of e s) s.world) s'.world
      (world-with_phases (phases_of e s) (run automatic (calls_of e s) s.world) s' done)
      (run-kept automatic P kept (calls_of e s) s.world h)

visited :
    (b : Bool) (c : ℕ) (w : World)
    → (b ≡ false → w.count ≤ c)
    → IsDraining w
    → After (Draining c) (run automatic (if b then closes_if_idle c ∷ [] else []) w)
unfolding run
visited true c w none_yet d =
    run-Occurs automatic (Draining c) (λ x v h. call-Draining automatic x v c h) (closes_if_idle c)
      (λ v d'. call_closes_if_idle automatic v c d') (closes_if_idle c ∷ []) w d (inl refl)
visited false c w none_yet d = (d, ground (arith, none_yet refl))

drains_conn-Draining :
    (c : ℕ) (s s' : Served)
    → IsServed s
    → serve_event (drains_conn c) s ≡ some s'
    → IsDraining s.world
    → Draining c s'.world
unfolding serve_event calls_of
drains_conn-Draining c s s' h done d =
    After-some (Draining c) (run automatic (calls_of (drains_conn c) s) s.world) s'.world
      (world-with_phases (phases_of (drains_conn c) s)
        (run automatic (calls_of (drains_conn c) s) s.world) s' done)
      (visited (exists (s.phases c)) c s.world (h.sane c).1 d)

next-Settled :
    (c : ℕ) (e : ServerEvent) (es : List ServerEvent) (s s' : Served)
    → IsServed s
    → IsDraining s.world
    → serve_event e s ≡ some s'
    → Settled c s.world ⊎ Comes (drains_conn c) (e ∷ es)
    → Settled c s'.world ⊎ Comes (drains_conn c) es
next-Settled c e es s s' h d done (inl settled) =
    inl
      (event-kept (Draining c) (λ x w k. call-Draining automatic x w c k) e s s' done
        (d, settled)).1
next-Settled c e es s s' h d done (inr (inl here)) =
    inl (drains_conn-Draining c s s' h (subst (λ x. serve_event x s ≡ some s') here done) d).1
next-Settled c e es s s' h d done (inr (inr later)) = inr later

-- In a draining shard a connection that is settled, or that the drain still comes to, is settled in
-- the end.
serve_events-Draining :
    (c : ℕ) (es : List ServerEvent) (s s' : Served)
    → IsServed s
    → IsDraining s.world
    → Settled c s.world ⊎ Comes (drains_conn c) es
    → serve_events es s ≡ some s'
    → Draining c s'.world
unfolding serve_events
serve_events-Draining c [] s s' h d (inl settled) done =
    let same : s ≡ s' = cc in subst (λ t. Draining c t.world) same (d, settled)
serve_events-Draining c [] s s' h d (inr comes) done = absurd comes
serve_events-Draining c (e ∷ es) s s' h d o done =
    let (s1, e1, h1) = serve_event-GoesOn e s h in
    let d1 = event-kept IsDraining (call-IsDraining automatic) e s s1 e1 d in
    let done1 : serve_events es s1 ≡ some s' =
      sym (ap (λ r. then_serve r (serve_events es)) e1) ∙ done in
    serve_events-Draining c es s1 s' h1 d1 (next-Settled c e es s s1 h d e1 o) done1

-- A connection without a request is closed.
abbrev pub Shed : Phase → Conn → Type 0
Shed waiting k = k.closed ≡ true
Shed _ k = Unit

shed : (c : ℕ) (w : World) (p : Phase) → IsSane w c p → Draining c w → Shed p (w.conns c)
shed c w absent o d = tt
shed c w waiting o d = ground (arith, o, d)
shed c w working o d = tt
shed c w failed o d = tt
shed c w hijacked o d = tt
shed c w ended o d = tt

abbrev begun : Served → Served
begun s = record { world = (snapshot false true s.world).1; phases = s.phases }

begun_lem : (s : Served) → serve_event begins_drain s ≡ some (begun s)
unfolding serve_event calls_of phases_of run call
begun_lem s = refl

begun-IsServed : (s : Served) → IsServed s → IsServed (begun s)
begun-IsServed s h =
    let (s1, e1, h1) = serve_event-GoesOn begins_drain s h in
    let same : s1 ≡ begun s = cc (begun_lem s) in subst IsServed same h1

begun-IsDraining : (s : Served) → IsDraining (begun s).world
unfolding snapshot
begun-IsDraining s = ground arith

begun-Settled :
    (c : ℕ) (after : List ServerEvent) (s : Served)
    → IsServed s
    → (c < s.world.count → (snapshot false true s.world).0 c ≡ true → Comes (drains_conn c) after)
    → Settled c (begun s).world ⊎ Comes (drains_conn c) after
unfolding snapshot
begun-Settled c after s h visits = elim (idle-Settled s.world c h.tracked) [
  | inl (lt, idle) ↦ inr (visits lt idle)
  | inr settled ↦ inl settled
]

-- For any events of such a server before a drain and any after its beginning, if these come to each
-- connection of the drain's snapshot: nothing panics, and afterwards the shard drains and every
-- connection on which the server waits for a request is closed.
pub begins_drain-Shed :
    (before after : List ServerEvent) (s : Served)
    → serve_events before new_served ≡ some s
    → ((c : ℕ)
        → c < s.world.count
        → (snapshot false true s.world).0 c ≡ true
        → Comes (drains_conn c) after)
    → (s' : Served) × (serve_events (begins_drain ∷ after) s ≡ some s')
      × (s'.world.shard.drain ≡ true)
      × ((c : ℕ) → Shed (s'.phases c) (s'.world.conns c))
unfolding serve_events
begins_drain-Shed before after s done visits =
    let (s0, e0, h0) = serve_events-GoesOn before new_served new_served-IsServed in
    let same : s0 ≡ s = cc in
    let h = subst IsServed same h0 in
    let (s', e', h') = serve_events-GoesOn after (begun s) (begun-IsServed s h) in
    let drained = λ (c : ℕ).
      serve_events-Draining c after (begun s) s' (begun-IsServed s h) (begun-IsDraining s)
        (begun-Settled c after s h (visits c)) e' in
    (
      s',
      rw (begun_lem s) e',
      (drained 0).0,
      λ c. shed c s'.world (s'.phases c) (h'.sane c) (drained c),
    )
