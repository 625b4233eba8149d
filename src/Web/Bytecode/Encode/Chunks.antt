-- ===== src/Web/Bytecode/Encode/Chunks.antt =====
-- web/bytecode_compiler.go: single states of an encoded trie, and the chunks of a child's prefix.
use goji.Prelude.{
  ℕ, suc, ◌+◌, ◌≡◌, refl, sym, ◌∙◌, subst, true, false, some, List, [], ◌∷◌, map, length, take,
  drop, get_elem?, arith, Bool-cases, inl, inr, ◌⊎◌,
}
use goji.Prelude.Bytes.{
  Bytes, has_prefix, has_prefix-split, has_prefix_cancel, has_prefix-take-false,
}
use goji.Web.Method.{Method}
use goji.Web.Route.{Request, Route}
use goji.Web.Bytecode.{at, StateMachine}
use goji.Web.Bytecode.Trie.{}
use goji.Web.Bytecode.Encode.{copied, chunk_state, continuation, resolve}
use goji.Web.Bytecode.Encode.Relocate.{}
use goji.Web.Bytecode.Runner.{running, step}
use goji.Web.Bytecode.Runner.Reach.{visit, Goes, Reaches-refl, Reaches-step}
use goji.Web.Bytecode.Runner.Instructions.{Holds, step-chunk}

module _ {C H : Type 0} (sm : StateMachine) (routes : List (Route C H)) (r : Request) where
  -- The cursor at which the run leaves is of no account: every exit leads to a state that sets it.
  abbrev pub Leaves : ℕ → ℕ → Bytes → List ℕ → ℕ → Type 0
  Leaves b u p xs y = (q : Bytes) × Goes sm routes r b u p xs y q

module _ {C H : Type 0} (sm : StateMachine) (routes : List (Route C H)) (r : Request) where
  pub Goes-step :
      (b u u' y : ℕ) (p p' q : Bytes) (xs : List ℕ)
      → ((ms : Method) (c : C) → step sm routes r (running u p ms c) ≡ running u' p' ms c)
      → Goes sm routes r b u' p' xs y q
      → Goes sm routes r (suc b) u p xs y q
  Goes-step b u u' y p p' q xs e h ms c = Reaches-step sm routes r b _ _ (rw (e ms c) (h ms c))

  pub Goes-stay : (b u z : ℕ) (p : Bytes) → u ≡ z → Goes sm routes r b u p [] z p
  unfolding visit
  Goes-stay b u z p e ms c = rw e (Reaches-refl sm routes r b _)

  -- The comparison of the bytes `q` with `s`, from the address `u` with the cursor `p`: the run
  -- comes to `z` with the rest of `s`, or to the exit `y`.
  abbrev pub Compared : ℕ → ℕ → Bytes → Bytes → Bytes → ℕ → ℕ → Type 0
  Compared b u p q s z y =
      ((has_prefix s q ≡ true) × Goes sm routes r b u p [] z (drop (length q) s))
      ⊎ ((has_prefix s q ≡ false) × Leaves sm routes r b u p [] y)

  Compared-step :
      (b u u' z y : ℕ) (p p' q s : Bytes)
      → ((ms : Method) (c : C) → step sm routes r (running u p ms c) ≡ running u' p' ms c)
      → Compared b u' p' q s z y
      → Compared (suc b) u p q s z y
  Compared-step b u u' z y p p' q s e (inl (h, g)) = inl (h, Goes-step b u u' z p p' _ [] e g)
  Compared-step b u u' z y p p' q s e (inr (h, l)) =
      inr (h, (l.0, Goes-step b u u' y p p' l.0 [] e l.1))

  -- One later chunk, and what follows it.
  Compared-chunk :
      (b u z y : ℕ) (q s : Bytes)
      → get_elem? sm u ≡ some (record (chunk_state q) { i = at y })
      → (has_prefix s (take 3 q) ≡ true → Compared b (u + 1) (drop (copied q) s) q s z y)
      → Compared (suc b) u s q s z y
  Compared-chunk b u z y q s e next = elim (Bool-cases (has_prefix s (take 3 q))) [
    | inl same ↦
        Compared-step b u (u + 1) z y s (drop (copied q) s) q s
          (λ ms c. step-chunk sm routes r u q y s ms c e ∙ rw same) (next same)
    | inr other ↦
        Compared-step b u y z y s s q s (λ ms c. step-chunk sm routes r u q y s ms c e ∙ rw other)
          (inr (has_prefix-take-false s q other, (s, Goes-stay b y y s refl)))
  ]

  -- Three bytes that were compared before.
  Compared-behind :
      (n u z y a b c : ℕ) (q s : Bytes)
      → Compared n u s q s z y
      → Compared n u s (a ∷ b ∷ c ∷ q) (a ∷ b ∷ c ∷ s) z y
  Compared-behind n u z y a b c q s (inl (h, g)) =
      inl (has_prefix_cancel (a ∷ b ∷ c ∷ []) s q ∙ h, g)
  Compared-behind n u z y a b c q s (inr (h, l)) =
      inr (has_prefix_cancel (a ∷ b ∷ c ∷ []) s q ∙ h, l)

  -- The states behind the first chunk of a prefix that begins like the path.
  pub continuation-Compared :
      (p s : Bytes) (u z y v : ℕ)
      → Holds sm u (map (resolve y v) (continuation p))
      → u + length (continuation p) ≡ z
      → has_prefix s (take 3 p) ≡ true
      → Compared (length (continuation p)) u (drop (copied p) s) p s z y
  unfolding continuation
  continuation-Compared [] s u z y v h e m = inl (m, Goes-stay 0 u z s (omega arith))
  continuation-Compared (a ∷ []) s u z y v h e m = inl (m, Goes-stay 0 u z _ (omega arith))
  continuation-Compared (a ∷ b ∷ []) s u z y v h e m = inl (m, Goes-stay 0 u z _ (omega arith))
  continuation-Compared (a ∷ b ∷ c ∷ []) s u z y v h e m = inl (m, Goes-stay 0 u z _ (omega arith))
  continuation-Compared (a ∷ b ∷ c ∷ d ∷ p) s u z y v h e m =
      let (s', split) = has_prefix-split s (a ∷ b ∷ c ∷ []) m in
      let rest =
        Compared-chunk (length (continuation (d ∷ p))) u z y (d ∷ p) s' h.0
          (continuation-Compared (d ∷ p) s' (u + 1) z y v h.1 (omega arith)) in
      subst
        (λ t. Compared (suc (length (continuation (d ∷ p)))) u (drop 3 t) (a ∷ b ∷ c ∷ d ∷ p) t z y)
        (sym split)
        (Compared-behind (suc (length (continuation (d ∷ p)))) u z y a b c (d ∷ p) s' rest)
