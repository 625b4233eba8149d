-- ===== src/Graceful/Listener/Counting.antt =====
-- graceful/listener: the connections that a shard still manages, and their number.
use goji.Prelude.{
  update, ℕ, zero, suc, ◌+◌, ◌≤◌, ◌<◌, ◌≡◌, refl, Bool, true, false, not, ◌&&◌, ◌==◌, arith,
  Bool-cases, inl, inr, subst, ==_self, ==_iff,
}
use goji.Graceful.Listener.Conn.{Conn, new_conn}

-- Neither closed nor handed over.
abbrev pub live : Conn → Bool
live k = not k.closed && not k.disowned

abbrev pub num : Bool → ℕ
num true = 1
num false = 0

unfoldable pub live_count : ℕ → (ℕ → Conn) → ℕ
live_count zero f = 0
live_count (suc n) f = num (live (f n)) + live_count n f

pub live_count-above :
    (n c : ℕ) (k : Conn) (f : ℕ → Conn) → n ≤ c → live_count n (update c k f) ≡ live_count n f
unfolding live_count
live_count-above zero c k f h = refl
live_count-above (suc n) c k f h = ground (arith, live_count-above n c k f)

live_count-top :
    (n : ℕ) (k : Conn) (f : ℕ → Conn)
    → live_count (suc n) (update n k f) + num (live (f n)) ≡ live_count (suc n) f + num (live k)
unfolding live_count
live_count-top n k f = rw (==_self n) (omega (arith, live_count-above n n k f (omega arith)))

pub live_count-update :
    (n c : ℕ) (k : Conn) (f : ℕ → Conn)
    → c < n
    → live_count n (update c k f) + num (live (f c)) ≡ live_count n f + num (live k)
unfolding live_count
live_count-update zero c k f h = absurd (omega arith)
live_count-update (suc n) c k f h = elim (Bool-cases (n == c)) [
  | inl same ↦
      subst
        (λ m.
          live_count (suc n) (update m k f) + num (live (f m))
          ≡ live_count (suc n) f + num (live k))
        ((==_iff n c).0 same) (live_count-top n k f)
  | inr other ↦ rw other (omega (arith, live_count-update n c k f (ground arith)))
]

-- A new connection counts.
pub live_count-new :
    (n : ℕ) (f : ℕ → Conn) → live_count (suc n) (update n new_conn f) ≡ live_count n f + 1
unfolding live_count
live_count-new n f = rw (==_self n) (omega (arith, live_count-above n n new_conn f (omega arith)))
