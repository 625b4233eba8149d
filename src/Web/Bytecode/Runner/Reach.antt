-- ===== src/Web/Bytecode/Runner/Reach.antt =====
-- web/bytecode_runner.go: runs of the loop, and the trials of routes inside a run.
use goji.Prelude.{
  ℕ, zero, suc, ◌+◌, ◌-◌, ◌≤◌, ◌≡◌, refl, ◌∙◌, ap, Bool, Option, none, some, List, [], ◌∷◌, ◌++◌,
  get_elem?, arith, Bool-cases, inl, inr,
}
use goji.Prelude.Bytes.{Bytes}
use goji.Web.Method.{Method, http_method}
use goji.Web.Route.{Request, Route, Found, match_route}
use goji.Web.Bytecode.{StateMachine}
use goji.Web.Bytecode.Runner.{Config, running, returned, panic, settle, attempt, step, steps}

-- The routes of the given indices are tried in turn; `k` says how the run goes on if all miss.
unfoldable pub visit :
    {C H : Type 0}
    → List (Route C H)
    → Request
    → List ℕ
    → Method
    → C
    → (Method → C → Config C H)
    → Config C H
visit routes r [] ms c k = k ms c
visit routes r (n ∷ ns) ms c k =
    attempt r (get_elem? routes n) ms c (λ ms' c'. visit routes r ns ms' c' k)

module _ {C H : Type 0} (sm : StateMachine) (routes : List (Route C H)) (r : Request) where
  -- At most `b` steps lead from one configuration to the other.
  abbrev pub Reaches : ℕ → Config C H → Config C H → Type 0
  Reaches b s t = (k : ℕ) × (k ≤ b) × (steps sm routes r k s ≡ t)

  -- The run tries the routes `xs` and then comes to the address `y` with the cursor `q`.
  abbrev pub Goes : ℕ → ℕ → Bytes → List ℕ → ℕ → Bytes → Type 0
  Goes b u p xs y q =
      (ms : Method) (c : C)
      → Reaches b (running u p ms c) (visit routes r xs ms c (λ ms' c'. running y q ms' c'))

module _ {C H : Type 0} (sm : StateMachine) (routes : List (Route C H)) (r : Request) where
  pub steps_add :
      (m n : ℕ) (s : Config C H)
      → steps sm routes r (m + n) s ≡ steps sm routes r n (steps sm routes r m s)
  unfolding steps
  steps_add zero n s = let e : zero + n ≡ n = omega arith in ap (λ k. steps sm routes r k s) e
  steps_add (suc m) n s =
      let e : suc m + n ≡ suc (m + n) = omega arith in
      ap (λ k. steps sm routes r k s) e ∙ steps_add m n (step sm routes r s)

  pub steps-returned :
      (n : ℕ) (o : Found C (Option (Route C H))) → steps sm routes r n (returned o) ≡ returned o
  unfolding steps step
  steps-returned zero o = refl
  steps-returned (suc n) o = steps-returned n o

  pub Reaches-refl : (b : ℕ) (s : Config C H) → Reaches sm routes r b s s
  unfolding steps
  Reaches-refl b s = (0, omega arith, refl)

  pub Reaches-step :
      (b : ℕ) (s t : Config C H)
      → Reaches sm routes r b (step sm routes r s) t
      → Reaches sm routes r (suc b) s t
  unfolding steps
  Reaches-step b s t (k, h, e) = (suc k, omega arith, e)

  pub Reaches-trans :
      (b b' : ℕ) (s t u : Config C H)
      → Reaches sm routes r b s t
      → Reaches sm routes r b' t u
      → Reaches sm routes r (b + b') s u
  Reaches-trans b b' s t u (k, h, e) (l, h', e') =
      (k + l, omega arith, steps_add k l s ∙ ap (steps sm routes r l) e ∙ e')

  pub Reaches-weaken :
      (b b' : ℕ) (s t : Config C H)
      → Reaches sm routes r b s t
      → b ≤ b'
      → Reaches sm routes r b' s t
  Reaches-weaken b b' s t (k, h, e) le = (k, omega arith, e)

  Reaches-settle :
      (b : ℕ) (rt : Route C H) (t : Found C Bool) (k k' : Method → C → Config C H)
      → ((ms : Method) (c : C) → Reaches sm routes r b (k ms c) (k' ms c))
      → Reaches sm routes r b (settle rt t k) (settle rt t k')
  Reaches-settle b rt t k k' h = elim (Bool-cases t.result) [
    | inl hit ↦ rw hit (Reaches-refl b _)
    | inr miss ↦ rw miss (h t.methods t.context)
  ]

  Reaches-attempt :
      (b : ℕ) (o : Option (Route C H)) (k k' : Method → C → Config C H)
      → ((ms : Method) (c : C) → Reaches sm routes r b (k ms c) (k' ms c))
      → (ms : Method) (c : C) → Reaches sm routes r b (attempt r o ms c k) (attempt r o ms c k')
  unfolding attempt
  Reaches-attempt b none k k' h ms c = Reaches-refl b panic
  Reaches-attempt b (some rt) k k' h ms c =
      Reaches-settle b rt (match_route rt (http_method r.method) ms r c) k k' h

  -- What is reached from every way on is reached behind the trials.
  pub Reaches-visit :
      (b : ℕ) (xs : List ℕ) (k k' : Method → C → Config C H)
      → ((ms : Method) (c : C) → Reaches sm routes r b (k ms c) (k' ms c))
      → (ms : Method) (c : C)
      → Reaches sm routes r b (visit routes r xs ms c k) (visit routes r xs ms c k')
  unfolding visit
  Reaches-visit b [] k k' h ms c = h ms c
  Reaches-visit b (x ∷ xs) k k' h ms c =
      Reaches-attempt b (get_elem? routes x) _ _ (Reaches-visit b xs k k' h) ms c

  pub visit-append :
      (xs ys : List ℕ) (ms : Method) (c : C) (k : Method → C → Config C H)
      → visit routes r (xs ++ ys) ms c k
        ≡ visit routes r xs ms c (λ ms' c'. visit routes r ys ms' c' k)
  unfolding visit
  visit-append [] ys ms c k = refl
  visit-append (x ∷ xs) ys ms c k =
      ap (attempt r (get_elem? routes x) ms c) (λ i ms' c'. visit-append xs ys ms' c' k i)

  pub Goes-trans :
      (b b' : ℕ) (u y z : ℕ) (p q q' : Bytes) (xs ys : List ℕ)
      → Goes sm routes r b u p xs y q
      → Goes sm routes r b' y q ys z q'
      → Goes sm routes r (b + b') u p (xs ++ ys) z q'
  Goes-trans b b' u y z p q q' xs ys h h' ms c =
      rw (visit-append xs ys ms c)
        (Reaches-trans b b' _ _ _ (h ms c) (Reaches-visit b' xs _ _ h' ms c))

  pub Goes-weaken :
      (b b' : ℕ) (u y : ℕ) (p q : Bytes) (xs : List ℕ)
      → Goes sm routes r b u p xs y q
      → b ≤ b'
      → Goes sm routes r b' u p xs y q
  Goes-weaken b b' u y p q xs h le ms c = Reaches-weaken b b' _ _ (h ms c) le

-- `return methods, nil`
abbrev pub missed : {C H : Type 0} → Method → C → Config C H
missed ms c = returned (record { methods = ms; result = none; context = c })

module _ {C H : Type 0} (sm : StateMachine) (routes : List (Route C H)) (r : Request) where
  steps-panic : (n : ℕ) → steps sm routes r n panic ≡ panic
  unfolding steps step
  steps-panic zero = refl
  steps-panic (suc n) = steps-panic n

  steps-attempt :
      (n : ℕ) (o : Option (Route C H)) (ms : Method) (c : C) (k : Method → C → Config C H)
      → ((ms : Method) (c : C) → steps sm routes r n (k ms c) ≡ k ms c)
      → steps sm routes r n (attempt r o ms c k) ≡ attempt r o ms c k
  unfolding attempt
  steps-attempt n none ms c k h = steps-panic n
  steps-attempt n (some rt) ms c k h =
      let t = match_route rt (http_method r.method) ms r c in
      elim (Bool-cases t.result) [
        | inl hit ↦ rw hit (steps-returned sm routes r n _)
        | inr miss ↦ rw miss (h t.methods t.context)
      ]

  -- A search that has ended stays as it is.
  steps-visit :
      (n : ℕ) (xs : List ℕ) (ms : Method) (c : C)
      → steps sm routes r n (visit routes r xs ms c missed) ≡ visit routes r xs ms c missed
  unfolding visit
  steps-visit n [] ms c = steps-returned sm routes r n _
  steps-visit n (x ∷ xs) ms c =
      steps-attempt n (get_elem? routes x) ms c _ (λ ms' c'. steps-visit n xs ms' c')

  -- More steps than were needed change nothing.
  pub steps-Reaches :
      (b n : ℕ) (s : Config C H) (xs : List ℕ) (ms : Method) (c : C)
      → Reaches sm routes r b s (visit routes r xs ms c missed)
      → b ≤ n
      → steps sm routes r n s ≡ visit routes r xs ms c missed
  steps-Reaches b n s xs ms c (k, h, e) le =
      let split : n ≡ k + (n - k) = omega arith in
      ap (λ m. steps sm routes r m s) split
      ∙ steps_add sm routes r k (n - k) s
      ∙ ap (steps sm routes r (n - k)) e
      ∙ steps-visit (n - k) xs ms c
