-- ===== src/Web/Router/Concurrent/Progress.antt =====
-- web/router.go: the lock is always given back, and a request comes to its machine.
use goji.Prelude.{
  ℕ, ◌≡◌, ◌≢◌, refl, sym, ◌∙◌, ap, Bool, true, false, Option, none, some, List, [], ◌∷◌, length,
  All, ◌⊎◌, inl, inr, update-all, update-same, update-other,
}
use goji.Web.Context.{Context}
use goji.Web.Router.{RouteMachine, handle, compile_router}
use goji.Web.Router.Concurrent.{
  Thread, rests, adds, copied, dropped, seeks, misses, compiled, found, System, set_thread,
  begin_call, lock_as, loaded, step_thread, Event, calls_handle, calls_get_match, calls_compile,
  steps, happens, happen, new_system,
}

-- The goroutine is between the lock and the unlock.
abbrev pub is_inside : {H : Type 0} → Thread H → Bool
is_inside (copied p m h rs) = true
is_inside (dropped p m h rs) = true
is_inside (compiled n rm) = true
is_inside _ = false

module _ {H : Type 0} where
  -- The holder of the lock is on its way to the unlock.
  abbrev pub IsHeld : System H → Type 0
  IsHeld s = (j : ℕ) → s.holder ≡ some j → is_inside (s.threads j) ≡ true

  set_thread-IsHeld :
      (i : ℕ) (t : Thread H) (s : System H)
      → IsHeld s
      → (is_inside (s.threads i) ≡ true → is_inside t ≡ true)
      → IsHeld (set_thread i t s)
  set_thread-IsHeld i t s h keeps =
      update-all (λ j v. s.holder ≡ some j → is_inside v ≡ true) i t s.threads (λ e. keeps (h i e))
        (λ j other. h j)

  lock_as-IsHeld :
      (holder : Option ℕ) (i : ℕ) (t : Thread H) (s : System H)
      → IsHeld s
      → is_inside t ≡ true
      → IsHeld (lock_as holder i t s)
  lock_as-IsHeld (some j) i t s h inside = h
  lock_as-IsHeld none i t s h inside =
      update-all (λ j v. some i ≡ some j → is_inside v ≡ true) i t s.threads (λ e. inside)
        (λ j other e. absurd (other cc))

  step_thread-IsHeld :
      (i : ℕ) (t : Thread H) (s : System H)
      → s.threads i ≡ t
      → IsHeld s
      → IsHeld (step_thread i t s)
  unfolding step_thread
  step_thread-IsHeld i rests s e h = h
  step_thread-IsHeld i (adds p m h') s e h =
      lock_as-IsHeld s.holder i (copied p m h' (handle s.router p m h').routes) s h refl
  step_thread-IsHeld i (copied p m h' rs) s e h =
      set_thread-IsHeld i (dropped p m h' rs) s h (λ k. refl)
  step_thread-IsHeld i (dropped p m h' rs) s e h = λ j d. cc
  step_thread-IsHeld i (seeks n) s e h =
      set_thread-IsHeld i (loaded n s.router.machine) s h
        (λ k. let no : false ≡ true = sym (ap is_inside e) ∙ k in cc)
  step_thread-IsHeld i (misses n) s e h =
      lock_as-IsHeld s.holder i (compiled n (compile_router s.router).0) s h refl
  step_thread-IsHeld i (compiled n rm) s e h = λ j d. cc
  step_thread-IsHeld i (found n rm) s e h = h

  begin_call-IsHeld :
      (i : ℕ) (t old : Thread H) (s : System H)
      → s.threads i ≡ old
      → IsHeld s
      → IsHeld (begin_call i t old s)
  begin_call-IsHeld i t rests s e h =
      set_thread-IsHeld i t s h (λ k. let no : false ≡ true = sym (ap is_inside e) ∙ k in cc)
  begin_call-IsHeld i t (found n rm) s e h =
      set_thread-IsHeld i t s h (λ k. let no : false ≡ true = sym (ap is_inside e) ∙ k in cc)
  begin_call-IsHeld i t (adds p m h') s e h = h
  begin_call-IsHeld i t (copied p m h' rs) s e h = h
  begin_call-IsHeld i t (dropped p m h' rs) s e h = h
  begin_call-IsHeld i t (seeks n) s e h = h
  begin_call-IsHeld i t (misses n) s e h = h
  begin_call-IsHeld i t (compiled n rm) s e h = h

  happen-IsHeld : (es : List (Event H)) (s : System H) → IsHeld s → IsHeld (happen es s)
  unfolding happen happens
  happen-IsHeld [] s h = h
  happen-IsHeld (calls_handle i p m h' ∷ es) s h =
      happen-IsHeld es (happens (calls_handle i p m h') s)
        (begin_call-IsHeld i (adds p m h') (s.threads i) s refl h)
  happen-IsHeld (calls_get_match i ∷ es) s h =
      happen-IsHeld es (happens (calls_get_match i) s)
        (begin_call-IsHeld i (seeks (length s.stored)) (s.threads i) s refl h)
  happen-IsHeld (calls_compile i ∷ es) s h =
      happen-IsHeld es (happens (calls_compile i) s)
        (begin_call-IsHeld i (misses (length s.stored)) (s.threads i) s refl h)
  happen-IsHeld (steps i ∷ es) s h =
      happen-IsHeld es (happens (steps i) s) (step_thread-IsHeld i (s.threads i) s refl h)

  abbrev pub IsStep : Event H → Type 0
  IsStep (steps i) = Unit
  IsStep _ = ⊥

  -- Steps of goroutines that have begun, after which goroutine `i` has a machine.
  abbrev pub Finds : ℕ → ℕ → System H → Type 0
  Finds i n s =
      (es : List (Event H)) × (rm : RouteMachine (Context H) H) × All IsStep es
      × ((happen es s).threads i ≡ found n rm)

  Finds-step :
      (i n j : ℕ) (t : Thread H) (s : System H)
      → s.threads j ≡ t
      → Finds i n (step_thread j t s)
      → Finds i n s
  unfolding happen happens
  Finds-step i n j t s e (es, rm, a, f) =
      (steps j ∷ es, rm, (tt, a), ap (λ x. (happen es (step_thread j x s)).threads i) e ∙ f)

  Finds-found :
      (i n : ℕ) (rm : RouteMachine (Context H) H) (s : System H)
      → s.threads i ≡ found n rm
      → Finds i n s
  unfolding happen
  Finds-found i n rm s e = ([], rm, tt, e)

  Finds-compiled :
      (i n : ℕ) (rm : RouteMachine (Context H) H) (s : System H)
      → s.threads i ≡ compiled n rm
      → Finds i n s
  unfolding step_thread
  Finds-compiled i n rm s e =
      Finds-step i n i (compiled n rm) s e (
        Finds-found i n rm (step_thread i (compiled n rm) s) (update-same i (found n rm) s.threads))

  Finds-misses : (i n : ℕ) (s : System H) → s.holder ≡ none → s.threads i ≡ misses n → Finds i n s
  unfolding step_thread
  Finds-misses i n s free e =
      let rm = (compile_router s.router).0 in
      Finds-step i n i (misses n) s e (
        Finds-compiled i n rm (step_thread i (misses n) s)
          (rw free (update-same i (compiled n rm) s.threads)))

  seeks-by :
      (o : Option (RouteMachine (Context H) H)) (i n : ℕ) (s : System H)
      → s.router.machine ≡ o
      → s.holder ≡ none
      → s.threads i ≡ seeks n
      → Finds i n s
  unfolding step_thread
  seeks-by none i n s m free e = Finds-step i n i (seeks n) s e (
      Finds-misses i n (step_thread i (seeks n) s) free
        (update-same i (loaded n s.router.machine) s.threads ∙ ap (loaded n) m))
  seeks-by (some rm) i n s m free e = Finds-step i n i (seeks n) s e (
      Finds-found i n rm (step_thread i (seeks n) s)
        (update-same i (loaded n s.router.machine) s.threads ∙ ap (loaded n) m))

  -- Whoever has the lock gives it back first, and goroutine `i` stays where it is.
  released :
      (i n j : ℕ) (t : Thread H) (s : System H)
      → s.threads j ≡ t
      → is_inside t ≡ true
      → i ≢ j
      → ((s' : System H) → s'.holder ≡ none → s'.threads i ≡ s.threads i → Finds i n s')
      → Finds i n s
  unfolding step_thread
  released i n j rests s e inside other go = cc
  released i n j (adds p m h) s e inside other go = cc
  released i n j (copied p m h rs) s e inside other go =
      let s1 = step_thread j (copied p m h rs) s in
      Finds-step i n j (copied p m h rs) s e (
        Finds-step i n j (dropped p m h rs) s1 (update-same j (dropped p m h rs) s.threads) (
          go (step_thread j (dropped p m h rs) s1) refl (
            update-other j i rests s1.threads other
            ∙ update-other j i (dropped p m h rs) s.threads other)))
  released i n j (dropped p m h rs) s e inside other go =
      Finds-step i n j (dropped p m h rs) s e
        (go (step_thread j (dropped p m h rs) s) refl (update-other j i rests s.threads other))
  released i n j (seeks k) s e inside other go = cc
  released i n j (misses k) s e inside other go = cc
  released i n j (compiled k rm) s e inside other go =
      Finds-step i n j (compiled k rm) s e
        (go (step_thread j (compiled k rm) s) refl (update-other j i (found k rm) s.threads other))
  released i n j (found k rm) s e inside other go = cc

  free_first :
      (o : Option ℕ) (i n : ℕ) (s : System H)
      → s.holder ≡ o
      → IsHeld s
      → is_inside (s.threads i) ≡ false
      → ((s' : System H) → s'.holder ≡ none → s'.threads i ≡ s.threads i → Finds i n s')
      → Finds i n s
  free_first none i n s e h outside go = go s e refl
  free_first (some j) i n s e h outside go =
      let inside = h j e in
      released i n j (s.threads j) s refl inside
        (λ same.
          let no : false ≡ true = sym outside ∙ ap (λ k. is_inside (s.threads k)) same ∙ inside in
          cc)
        go

  -- After any interleaving of goroutines on a new router, a getMatch or Compile that has not yet
  -- its machine, also one that waits for a lock that another goroutine holds, comes to a machine by
  -- steps of the goroutines that have begun alone: no lock is ever kept.
  pub getting-Finds :
      (nf : H) (es : List (Event H)) (i n : ℕ)
      → let s = happen es (new_system nf) in
        (s.threads i ≡ seeks n) ⊎ (s.threads i ≡ misses n) → Finds i n s
  getting-Finds nf es i n (inl e) =
      let s = happen es (new_system nf) in
      free_first s.holder i n s refl (happen-IsHeld es (new_system nf) (λ j d. cc)) (ap is_inside e)
        (λ s' free same. seeks-by s'.router.machine i n s' refl free (same ∙ e))
  getting-Finds nf es i n (inr e) =
      let s = happen es (new_system nf) in
      free_first s.holder i n s refl (happen-IsHeld es (new_system nf) (λ j d. cc)) (ap is_inside e)
        (λ s' free same. Finds-misses i n s' free (same ∙ e))
