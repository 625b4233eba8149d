-- ===== src/Graceful/Listener/Tests.antt =====
-- graceful/listener: shards with one connection.
use goji.Prelude.{
  ℕ, suc, ◌<◌, ◌≡◌, refl, subst, true, false, none, some, List, [], ◌∷◌, ◌==◌, ltb, ◌&&◌, arith,
  inl,
}
use goji.Graceful.Listener.Conn.{
  automatic, deadline, new_conn, World, Reply, nil_error, mark_idle, close_if_idle, disown,
}
use goji.Graceful.Listener.CloseConns.{snapshot, close_conns}
use goji.Graceful.Listener.Counting.{live, live_count}
use goji.Graceful.Listener.Invariant.{IsTracked}
use goji.Graceful.Listener.Calls.{Goes}
use goji.Graceful.Listener.History.{
  Call, accepts, reads, closes, closes_if_idle, run, run-IsTracked,
}
use goji.Graceful.Listener.After.{Occurs}
use goji.Graceful.Listener.Drain.{Draining, drain-Settled, drain_all-wg}
use goji.Graceful.Listener.Closing.{close_conns-drains}
use goji.Graceful.Listener.Faults.{disown-closed, mark_idle-closed}
use goji.Graceful.Listener.Shards.{
  Listener, start_drain, Waited, AllTracked, wrap, start_drain-Waited, wrap-AllTracked,
}

-- A shard with one connection that is idle.
abbrev one_idle : World
one_idle = record {
  shard = record { idle = λ c. c == 0; all = λ c. c == 0; wg = 1; drain = false };
  conns = λ c. new_conn;
  count = 1;
}

one_idle-IsTracked : IsTracked one_idle
unfolding live_count
one_idle-IsTracked = record {
  all_live = λ c. ground arith;
  idle_free = λ c lt l. ground arith;
  counted = refl;
}

-- A shard whose only connection was closed while it was in use.
abbrev one_closed : World
one_closed = record {
  shard = record { idle = λ c. false; all = λ c. false; wg = 0; drain = false };
  conns = λ c. record { busy = true; closed = true; disowned = false; closes = 1 };
  count = 1;
}

one_closed-IsTracked : IsTracked one_closed
unfolding live_count
one_closed-IsTracked = record {
  all_live = λ c. ground arith;
  idle_free = λ c lt l. cc;
  counted = refl;
}

abbrev zero_lt_one : 0 < 1
zero_lt_one = omega arith

run-IsTracked_example : Goes (run automatic (reads true 0 ∷ accepts ∷ []) one_idle)
run-IsTracked_example =
    run-IsTracked automatic (reads true 0 ∷ accepts ∷ []) one_idle one_idle-IsTracked
      (zero_lt_one, λ w e. (tt, λ w' e'. tt))

abbrev shuts : List Call
shuts = closes_if_idle 0 ∷ accepts ∷ []

abbrev shuts_all : List Call
shuts_all = closes 0 ∷ accepts ∷ []

shuts-Occurs :
    (c : ℕ) → c < 1 → (snapshot false true one_idle).0 c ≡ true → Occurs (closes_if_idle c) shuts
shuts-Occurs c lt h = subst (λ i. Occurs (closes_if_idle i) shuts) (omega arith) (inl refl)

shuts_all-Occurs :
    (c : ℕ) → c < 1 → (snapshot true true one_idle).0 c ≡ true → Occurs (closes c) shuts_all
shuts_all-Occurs c lt h = subst (λ i. Occurs (closes i) shuts_all) (omega arith) (inl refl)

drain-Settled_example :
    (w' : World) × (run deadline shuts (snapshot false true one_idle).1 ≡ some w')
    × IsTracked w'
    × ((c : ℕ) → Draining c w')
unfolding snapshot
drain-Settled_example =
    drain-Settled deadline shuts one_idle one_idle-IsTracked (zero_lt_one, λ w e. (tt, λ w' e'. tt))
      shuts-Occurs

drain_all-wg_example :
    (w' : World) × (run deadline shuts_all (snapshot true true one_idle).1 ≡ some w')
    × (w'.shard.wg ≡ 0)
    × ((c : ℕ) → (ltb c w'.count && live (w'.conns c)) ≡ false)
unfolding snapshot
drain_all-wg_example =
    drain_all-wg deadline shuts_all one_idle one_idle-IsTracked
      (zero_lt_one, λ w e. (tt, λ w' e'. tt)) shuts_all-Occurs

close_conns-drains_example :
    ((w' : World) × (close_conns false true one_idle ≡ some w')
      × IsTracked w'
      × ((c : ℕ) → Draining c w'))
    × ((w' : World) × (close_conns true true one_idle ≡ some w') × (w'.shard.wg ≡ 0))
close_conns-drains_example = close_conns-drains one_idle one_idle-IsTracked

disown-closed_example :
    (live_count 1 one_closed.conns ≡ 0 → disown 0 one_closed ≡ none)
    × ((n : ℕ)
        → live_count 1 one_closed.conns ≡ suc n
        → (p : Reply × World) × (disown 0 one_closed ≡ some p)
          × (p.1.shard.wg ≡ n)
          × (live_count p.1.count p.1.conns ≡ suc n))
disown-closed_example = disown-closed one_closed 0 one_closed-IsTracked zero_lt_one refl refl

mark_idle-closed_example :
    (w' : World) × (mark_idle 0 one_closed ≡ some w')
    × (w'.shard.all 0 ≡ false)
    × (w'.shard.idle 0 ≡ true)
    × (close_if_idle 0 w' ≡ some (nil_error, w'))
mark_idle-closed_example =
    mark_idle-closed one_closed 0 one_closed-IsTracked zero_lt_one refl refl refl

-- A listener with one shard.
abbrev one_shard : Listener
one_shard = record { conn_count = 6; shards = one_idle ∷ []; mode = deadline }

start_drain-Waited_example :
    ((t' : Listener) × (start_drain true one_shard ≡ some t') × Waited t')
    × ((t' : Listener) × (start_drain false one_shard ≡ some t') × AllTracked t')
start_drain-Waited_example = start_drain-Waited one_shard (one_idle-IsTracked, tt)

wrap-AllTracked_example : AllTracked (wrap 4 deadline)
wrap-AllTracked_example = wrap-AllTracked 4 deadline
