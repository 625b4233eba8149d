-- ===== src/Web/Router/Concurrent/Invariant.antt =====
-- web/router.go: what holds of the goroutines on a router, whatever their interleaving.
use goji.Prelude.{
  ℕ, zero, suc, ◌≤◌, ◌≡◌, ◌≢◌, refl, sym, ap, subst, Option, none, some, List, [], ◌∷◌, ◌++◌,
  length, take, length-append, update-all, arith,
}
use goji.Web.Route.{Route}
use goji.Web.Context.{Context}
use goji.Web.Router.{RouteMachine, Router, handle}
use goji.Web.Router.Naive.{new_router}
use goji.Web.Router.History.{Call, serve}
use goji.Web.Router.Search.{IsFresh}
use goji.Web.Router.Concurrent.{
  Thread, rests, adds, copied, dropped, seeks, misses, compiled, found, System, set_thread,
}

take-all : {A : Type 0} (xs : List A) → take (length xs) xs ≡ xs
take-all [] = refl
take-all (x ∷ xs) = ap (◌∷◌ x) (take-all xs)

take-before : {A : Type 0} (v : ℕ) (xs ys : List A) → v ≤ length xs → take v (xs ++ ys) ≡ take v xs
take-before zero xs ys h = refl
take-before (suc v) [] ys h = absurd (omega (arith, h))
take-before (suc v) (x ∷ xs) ys h = ap (◌∷◌ x) (take-before v xs ys (omega (arith, h)))

pub not-holder : (h : Option ℕ) (i j : ℕ) → h ≡ some i → j ≢ i → h ≢ some j
not-holder h i j e other e' = other cc

module _ {H : Type 0} (nf : H) where
  -- The routes after the first `v` calls of `handle`.
  abbrev pub routes_after : ℕ → List (Call H) → List (Route (Context H) H)
  routes_after v log = (serve (new_router nf) (take v log)).routes

  -- The machine is the one of the routes at a moment since the count was `n`.
  pub record IsRecent (log : List (Call H)) (n : ℕ) (rm : RouteMachine (Context H) H) : Type 0 where
    pub version : ℕ
    pub after : n ≤ version
    pub before : version ≤ length log
    pub same : IsFresh (routes_after version log) (some rm)

  -- What a goroutine has seen of the router; with the lock, that the lock is its own.
  abbrev pub IsHonest : Router (Context H) H → Option ℕ → List (Call H) → ℕ → Thread H → Type 0
  IsHonest rt holder log i rests = Unit
  IsHonest rt holder log i (adds p m h) = Unit
  IsHonest rt holder log i (copied p m h rs) = (holder ≡ some i) × (rs ≡ (handle rt p m h).routes)
  IsHonest rt holder log i (dropped p m h rs) =
      (holder ≡ some i) × ((rs ≡ (handle rt p m h).routes) × (rt.machine ≡ none))
  IsHonest rt holder log i (seeks n) = n ≤ length log
  IsHonest rt holder log i (misses n) = n ≤ length log
  IsHonest rt holder log i (compiled n rm) =
      (holder ≡ some i) × (IsFresh rt.routes (some rm) × (n ≤ length log))
  IsHonest rt holder log i (found n rm) = IsRecent log n rm

  pub record IsConsistent (s : System H) : Type 0 where
    pub routes : s.router.routes ≡ (serve (new_router nf) s.stored).routes
    pub not_found : s.router.not_found ≡ nf
    pub fresh : IsFresh s.router.routes s.router.machine
    pub honest : (i : ℕ) → IsHonest s.router s.holder s.stored i (s.threads i)

  IsRecent-later :
      (log more : List (Call H)) (n : ℕ) (rm : RouteMachine (Context H) H)
      → IsRecent log n rm
      → IsRecent (log ++ more) n rm
  IsRecent-later log more n rm r = record {
    version = r.version;
    after = r.after;
    before = omega (arith, r.before, length-append log more);
    same =
        subst (λ l. IsFresh (serve (new_router nf) l).routes (some rm))
          (sym (take-before r.version log more r.before)) r.same;
  }

  pub IsRecent-now :
      (log : List (Call H)) (n : ℕ) (rm : RouteMachine (Context H) H)
      → n ≤ length log
      → IsFresh (serve (new_router nf) log).routes (some rm)
      → IsRecent log n rm
  IsRecent-now log n rm h fresh = record {
    version = length log;
    after = h;
    before = omega arith;
    same =
        subst (λ l. IsFresh (serve (new_router nf) l).routes (some rm)) (sym (take-all log)) fresh;
  }

  -- A goroutine without the lock does not notice what happens under it.
  pub unlocked-IsHonest :
      (rt rt' : Router (Context H) H) (holder holder' : Option ℕ) (log : List (Call H)) (j : ℕ)
      (t : Thread H)
      → holder ≢ some j
      → IsHonest rt holder log j t
      → IsHonest rt' holder' log j t
  unlocked-IsHonest rt rt' holder holder' log j rests free o = tt
  unlocked-IsHonest rt rt' holder holder' log j (adds p m h) free o = tt
  unlocked-IsHonest rt rt' holder holder' log j (copied p m h rs) free o = absurd (free o.0)
  unlocked-IsHonest rt rt' holder holder' log j (dropped p m h rs) free o = absurd (free o.0)
  unlocked-IsHonest rt rt' holder holder' log j (seeks n) free o = o
  unlocked-IsHonest rt rt' holder holder' log j (misses n) free o = o
  unlocked-IsHonest rt rt' holder holder' log j (compiled n rm) free o = absurd (free o.0)
  unlocked-IsHonest rt rt' holder holder' log j (found n rm) free o = o

  pub later-IsHonest :
      (rt : Router (Context H) H) (holder : Option ℕ) (log more : List (Call H)) (j : ℕ)
      (t : Thread H)
      → IsHonest rt holder log j t
      → IsHonest rt holder (log ++ more) j t
  later-IsHonest rt holder log more j rests o = tt
  later-IsHonest rt holder log more j (adds p m h) o = tt
  later-IsHonest rt holder log more j (copied p m h rs) o = o
  later-IsHonest rt holder log more j (dropped p m h rs) o = o
  later-IsHonest rt holder log more j (seeks n) o = omega (arith, o, length-append log more)
  later-IsHonest rt holder log more j (misses n) o = omega (arith, o, length-append log more)
  later-IsHonest rt holder log more j (compiled n rm) o =
      (o.0, (o.1.0, omega (arith, o.1.1, length-append log more)))
  later-IsHonest rt holder log more j (found n rm) o = IsRecent-later log more n rm o

  -- A goroutine changes, and nothing else.
  pub set_thread-IsConsistent :
      (i : ℕ) (t : Thread H) (s : System H)
      → IsConsistent s
      → IsHonest s.router s.holder s.stored i t
      → IsConsistent (set_thread i t s)
  set_thread-IsConsistent i t s c o = record {
    routes = c.routes;
    not_found = c.not_found;
    fresh = c.fresh;
    honest =
        update-all (IsHonest s.router s.holder s.stored) i t s.threads o (λ j other. c.honest j);
  }
