-- ===== src/Web/Router/Concurrent/Steps.antt =====
-- web/router.go: each step of a goroutine keeps what holds of all of them.
use goji.Prelude.{
  ℕ, ◌≤◌, ◌≡◌, refl, sym, ◌∙◌, ap, subst, Option, none, some, List, [], ◌∷◌, ◌++◌, length,
  update-all, arith,
}
use goji.Web.Method.{Method}
use goji.Web.Route.{Pattern, Route}
use goji.Web.Context.{Context}
use goji.Web.Router.{RouteMachine, Router, handle, compile_router, get_match_for}
use goji.Web.Router.Naive.{new_router}
use goji.Web.Router.History.{Call, handles, compiles, requests, serve}
use goji.Web.Router.Search.{IsFresh}
use goji.Web.Router.Concurrent.{
  Thread, rests, adds, copied, dropped, seeks, misses, compiled, found, System, set_thread,
  begin_call, lock_as, loaded, step_thread, Event, calls_handle, calls_get_match, calls_compile,
  steps, happens, happen,
}
use goji.Web.Router.Concurrent.Invariant.{
  IsHonest, IsConsistent, IsRecent-now, unlocked-IsHonest, later-IsHonest, set_thread-IsConsistent,
  not-holder,
}

module _ {H : Type 0} where
  handle_same :
      (rt rt' : Router (Context H) H) (p : Pattern (Context H)) (m : Method) (h : H)
      → rt.routes ≡ rt'.routes
      → (handle rt p m h).routes ≡ (handle rt' p m h).routes
  unfolding handle
  handle_same rt rt' p m h e = ap (λ l. (handle (record rt { routes = l }) p m h).routes) e

  serve-snoc :
      (log : List (Call H)) (rt : Router (Context H) H) (p : Pattern (Context H)) (m : Method)
      (h : H)
      → serve rt (log ++ handles p m h ∷ []) ≡ handle (serve rt log) p m h
  unfolding serve
  serve-snoc [] rt p m h = refl
  serve-snoc (handles p' m' h' ∷ log) rt p m h = serve-snoc log (handle rt p' m' h') p m h
  serve-snoc (compiles ∷ log) rt p m h = serve-snoc log (compile_router rt).1 p m h
  serve-snoc (requests r c ∷ log) rt p m h = serve-snoc log (get_match_for rt r c).1 p m h

module _ {H : Type 0} (nf : H) where
  lock_as-IsConsistent :
      (holder : Option ℕ) (i : ℕ) (t : Thread H) (s : System H)
      → s.holder ≡ holder
      → IsConsistent nf s
      → IsHonest nf s.router (some i) s.stored i t
      → IsConsistent nf (lock_as holder i t s)
  lock_as-IsConsistent (some j) i t s e c o = c
  lock_as-IsConsistent none i t s e c o = record {
    routes = c.routes;
    not_found = c.not_found;
    fresh = c.fresh;
    honest = update-all (IsHonest nf s.router (some i) s.stored) i t s.threads o (λ j other.
        unlocked-IsHonest nf s.router s.router s.holder (some i) s.stored j (s.threads j) (λ f. cc)
          (c.honest j));
  }

  -- The holder of the lock changes the machine.
  machine-IsConsistent :
      (o : Option (RouteMachine (Context H) H)) (holder : Option ℕ) (i : ℕ) (t : Thread H)
      (s : System H)
      → IsConsistent nf s
      → s.holder ≡ some i
      → IsFresh s.router.routes o
      → IsHonest nf (record s.router { machine = o }) holder s.stored i t
      → IsConsistent nf
          (set_thread i t (record s { router = record s.router { machine = o }; holder = holder }))
  machine-IsConsistent o holder i t s c own fresh new = record {
    routes = c.routes;
    not_found = c.not_found;
    fresh = fresh;
    honest =
        update-all (IsHonest nf (record s.router { machine = o }) holder s.stored) i t s.threads new
          (λ j other.
            unlocked-IsHonest nf s.router (record s.router { machine = o }) s.holder holder s.stored
              j (s.threads j) (not-holder s.holder i j own other) (c.honest j));
  }

  store-IsConsistent :
      (i : ℕ) (p : Pattern (Context H)) (m : Method) (h : H) (rs : List (Route (Context H) H))
      (s : System H)
      → IsConsistent nf s
      → s.holder ≡ some i
      → rs ≡ (handle s.router p m h).routes
      → s.router.machine ≡ none
      → IsConsistent nf (
          set_thread i rests (record s {
            router = record s.router { routes = rs };
            holder = none;
            stored = s.stored ++ handles p m h ∷ [];
          }))
  store-IsConsistent i p m h rs s c own e gone =
      let rt' = record s.router { routes = rs } in
      let log' = s.stored ++ handles p m h ∷ [] in
      record {
        routes =
            e
            ∙ handle_same s.router (serve (new_router nf) s.stored) p m h c.routes
            ∙ ap (λ rt. rt.routes) (sym (serve-snoc s.stored (new_router nf) p m h));
        not_found = c.not_found;
        fresh = rw gone tt;
        honest = update-all (IsHonest nf rt' none log') i rests s.threads tt (λ j other.
            later-IsHonest nf rt' none s.stored (handles p m h ∷ []) j (s.threads j) (
              unlocked-IsHonest nf s.router rt' s.holder none s.stored j (s.threads j)
                (not-holder s.holder i j own other) (c.honest j)));
      }

  loaded-IsHonest :
      (o : Option (RouteMachine (Context H) H)) (i n : ℕ) (s : System H)
      → IsConsistent nf s
      → s.router.machine ≡ o
      → n ≤ length s.stored
      → IsHonest nf s.router s.holder s.stored i (loaded n o)
  loaded-IsHonest none i n s c e h = h
  loaded-IsHonest (some rm) i n s c e h =
      let f = subst (IsFresh s.router.routes) e c.fresh in
      IsRecent-now nf s.stored n rm h (subst (λ l. IsFresh l (some rm)) c.routes f)

  step_thread-IsConsistent :
      (i : ℕ) (t : Thread H) (s : System H)
      → IsConsistent nf s
      → IsHonest nf s.router s.holder s.stored i t
      → IsConsistent nf (step_thread i t s)
  unfolding step_thread handle compile_router
  step_thread-IsConsistent i rests s c o = c
  step_thread-IsConsistent i (adds p m h) s c o =
      lock_as-IsConsistent s.holder i (copied p m h (handle s.router p m h).routes) s refl c
        (refl, refl)
  step_thread-IsConsistent i (copied p m h rs) s c o =
      machine-IsConsistent none s.holder i (dropped p m h rs) s c o.0 tt (o.0, (o.1, refl))
  step_thread-IsConsistent i (dropped p m h rs) s c o =
      store-IsConsistent i p m h rs s c o.0 o.1.0 o.1.1
  step_thread-IsConsistent i (seeks n) s c o =
      set_thread-IsConsistent nf i (loaded n s.router.machine) s c
        (loaded-IsHonest s.router.machine i n s c refl o)
  step_thread-IsConsistent i (misses n) s c o =
      lock_as-IsConsistent s.holder i (compiled n (compile_router s.router).0) s refl c
        (refl, ((refl, refl), o))
  step_thread-IsConsistent i (compiled n rm) s c o =
      machine-IsConsistent (some rm) none i (found n rm) s c o.0 o.1.0
        (IsRecent-now nf s.stored n rm o.1.1 (subst (λ l. IsFresh l (some rm)) c.routes o.1.0))
  step_thread-IsConsistent i (found n rm) s c o = c

  begin_call-IsConsistent :
      (i : ℕ) (t old : Thread H) (s : System H)
      → IsConsistent nf s
      → IsHonest nf s.router s.holder s.stored i t
      → IsConsistent nf (begin_call i t old s)
  begin_call-IsConsistent i t rests s c o = set_thread-IsConsistent nf i t s c o
  begin_call-IsConsistent i t (found n rm) s c o = set_thread-IsConsistent nf i t s c o
  begin_call-IsConsistent i t (adds p m h) s c o = c
  begin_call-IsConsistent i t (copied p m h rs) s c o = c
  begin_call-IsConsistent i t (dropped p m h rs) s c o = c
  begin_call-IsConsistent i t (seeks n) s c o = c
  begin_call-IsConsistent i t (misses n) s c o = c
  begin_call-IsConsistent i t (compiled n rm) s c o = c

  happens-IsConsistent :
      (e : Event H) (s : System H) → IsConsistent nf s → IsConsistent nf (happens e s)
  unfolding happens
  happens-IsConsistent (calls_handle i p m h) s c =
      begin_call-IsConsistent i (adds p m h) (s.threads i) s c tt
  happens-IsConsistent (calls_get_match i) s c =
      begin_call-IsConsistent i (seeks (length s.stored)) (s.threads i) s c (omega arith)
  happens-IsConsistent (calls_compile i) s c =
      begin_call-IsConsistent i (misses (length s.stored)) (s.threads i) s c (omega arith)
  happens-IsConsistent (steps i) s c = step_thread-IsConsistent i (s.threads i) s c (c.honest i)

  pub happen-IsConsistent :
      (es : List (Event H)) (s : System H) → IsConsistent nf s → IsConsistent nf (happen es s)
  unfolding happen
  happen-IsConsistent [] s c = c
  happen-IsConsistent (e ∷ es) s c =
      happen-IsConsistent es (happens e s) (happens-IsConsistent e s c)
