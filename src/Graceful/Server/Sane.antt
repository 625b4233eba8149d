-- ===== src/Graceful/Server/Sane.antt =====
-- graceful/serve13.go with graceful/listener: what the server knows of a connection, and what each
-- call leaves of it.
use goji.Prelude.{ℕ, ◌≤◌, ◌<◌, ◌≡◌, ◌≢◌, Bool, true, false, arith}
use goji.Graceful.Listener.Conn.{automatic, World, init, read, close}
use goji.Graceful.Listener.Counting.{live}
use goji.Graceful.Listener.After.{After}
use goji.Graceful.Listener.History.{
  accepts, reads, closes, closes_if_idle, marks_idle, disowns, snapshots, call,
}
use goji.Graceful.Server.Run.{
  Phase, absent, waiting, working, failed, hijacked, ended, exists, is_waiting, is_working, is_open,
  is_managed, accepted, received,
}

-- What a phase says of the connection.
abbrev pub IsSane : World → ℕ → Phase → Type 0
IsSane w c p =
    (exists p ≡ true → c < w.count)
    × (exists p ≡ false → w.count ≤ c)
    × (is_managed p ≡ true → (w.conns c).disowned ≡ false)
    × (is_waiting p ≡ true → (w.conns c).busy ≡ false)
    × (is_working p ≡ true → ((w.conns c).busy ≡ true) × ((w.conns c).closed ≡ false))
    × (live (w.conns c) ≡ true → (w.conns c).closes ≡ 0)

-- A call on one connection leaves what holds of the others.
pub accepts-others :
    (w : World) (j : ℕ) (p : Phase)
    → j ≢ w.count
    → IsSane w j p
    → After (λ w'. IsSane w' j p) (call automatic accepts w)
unfolding call
accepts-others w j p other h = ground (arith, h, other)

pub reads-others :
    (w : World) (ok : Bool) (c j : ℕ) (p : Phase)
    → j ≢ c
    → IsSane w j p
    → After (λ w'. IsSane w' j p) (call automatic (reads ok c) w)
unfolding call
reads-others w ok c j p other h = ground (arith, h, other)

pub marks_idle-others :
    (w : World) (c j : ℕ) (p : Phase)
    → j ≢ c
    → IsSane w j p
    → After (λ w'. IsSane w' j p) (call automatic (marks_idle c) w)
unfolding call
marks_idle-others w c j p other h = ground (arith, h, other)

pub disowns-others :
    (w : World) (c j : ℕ) (p : Phase)
    → j ≢ c
    → IsSane w j p
    → After (λ w'. IsSane w' j p) (call automatic (disowns c) w)
unfolding call
disowns-others w c j p other h = ground (arith, h, other)

pub closes-others :
    (w : World) (c j : ℕ) (p : Phase)
    → j ≢ c
    → IsSane w j p
    → After (λ w'. IsSane w' j p) (call automatic (closes c) w)
unfolding call
closes-others w c j p other h = ground (arith, h, other)

-- A drain leaves what the server's phases say.
pub closes_if_idle-IsSane :
    (w : World) (c j : ℕ) (p : Phase)
    → IsSane w j p
    → After (λ w'. IsSane w' j p) (call automatic (closes_if_idle c) w)
unfolding call
closes_if_idle-IsSane w c j p h = ground (arith, h)

pub snapshots-IsSane :
    (w : World) (j : ℕ) (p : Phase)
    → IsSane w j p
    → After (λ w'. IsSane w' j p) (call automatic (snapshots false true) w)
unfolding call
snapshots-IsSane w j p h = ground (arith, h)

-- What a call makes of the phase of its own connection.
pub accepts-own :
    (w : World) → After (λ w'. IsSane w' w.count (accepted (init w))) (call automatic accepts w)
unfolding call init close
accepts-own w = ground arith

pub reads-own :
    (w : World) (ok : Bool) (c : ℕ) (p : Phase)
    → is_open p ≡ true
    → IsSane w c p
    → After
        (λ w'. IsSane w' c (received p ok (read automatic ok c w).0))
        (call automatic (reads ok c) w)
unfolding call read
reads-own w ok c absent o h = cc
reads-own w true c waiting o h = ground (arith, h)
reads-own w false c waiting o h = ground (arith, h)
reads-own w ok c working o h = ground (arith, h)
reads-own w ok c failed o h = cc
reads-own w ok c hijacked o h = cc
reads-own w ok c ended o h = cc

pub marks_idle-own :
    (w : World) (c : ℕ)
    → IsSane w c working
    → After (λ w'. IsSane w' c waiting) (call automatic (marks_idle c) w)
unfolding call
marks_idle-own w c h = ground (arith, h)

pub disowns-own :
    (w : World) (c : ℕ)
    → IsSane w c working
    → After (λ w'. IsSane w' c hijacked) (call automatic (disowns c) w)
unfolding call
disowns-own w c h = ground (arith, h)

pub closes-own :
    (w : World) (c : ℕ) (p : Phase)
    → is_managed p ≡ true
    → IsSane w c p
    → After (λ w'. IsSane w' c ended) (call automatic (closes c) w)
unfolding call
closes-own w c absent o h = cc
closes-own w c waiting o h = ground (arith, h)
closes-own w c working o h = ground (arith, h)
closes-own w c failed o h = ground (arith, h)
closes-own w c hijacked o h = cc
closes-own w c ended o h = cc
