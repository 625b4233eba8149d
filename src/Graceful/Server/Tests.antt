-- ===== src/Graceful/Server/Tests.antt =====
-- graceful/serve13.go: a server with two connections, of which one has a request in progress when the
-- drain begins.
use goji.Prelude.{
  ℕ, zero, suc, ◌<◌, ◌≡◌, refl, true, Option, none, some, List, [], ◌∷◌, arith, false, inl, inr,
}
use goji.Graceful.Listener.Conn.{read, init}
use goji.Graceful.Listener.CloseConns.{snapshot}
use goji.Graceful.Listener.History.{call, run}
use goji.Graceful.Server.Run.{
  Served, ServerEvent, opens, receives, begins_drain, drains_conn, calls_of, phases_of, serve_event,
  serve_events, new_served,
}
use goji.Graceful.Server.Drained.{Comes, Shed, begins_drain-Shed}

abbrev two_conns : List ServerEvent
two_conns = opens ∷ opens ∷ receives true 0 ∷ []

abbrev visits_both : List ServerEvent
visits_both = drains_conn 1 ∷ drains_conn 0 ∷ []

abbrev or_new : Option Served → Served
or_new none = new_served
or_new (some s) = s

abbrev at_drain : Served
at_drain = or_new (serve_events two_conns new_served)

at_drain-reached : serve_events two_conns new_served ≡ some at_drain
unfolding serve_events serve_event calls_of phases_of run call init read
at_drain-reached = refl

at_drain-count : at_drain.world.count ≡ 2
unfolding serve_events serve_event calls_of phases_of run call init read
at_drain-count = refl

visited :
    (c : ℕ)
    → c < at_drain.world.count
    → (snapshot false true at_drain.world).0 c ≡ true
    → Comes (drains_conn c) visits_both
visited zero lt m = inr (inl refl)
visited (suc zero) lt m = inl refl
visited (suc (suc c)) lt m = absurd (omega (arith, lt, at_drain-count))

begins_drain-Shed_example :
    (s : Served) × (serve_events (begins_drain ∷ visits_both) at_drain ≡ some s)
    × (s.world.shard.drain ≡ true)
    × ((c : ℕ) → Shed (s.phases c) (s.world.conns c))
begins_drain-Shed_example =
    begins_drain-Shed two_conns visits_both at_drain at_drain-reached visited
