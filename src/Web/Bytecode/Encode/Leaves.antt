-- ===== src/Web/Bytecode/Encode/Leaves.antt =====
-- web/bytecode_compiler.go and web/bytecode_runner.go: runs from one instruction of an encoded trie.
use goji.Prelude.{
  ℕ, suc, ◌+◌, ◌≤◌, ◌≡◌, refl, ◌∙◌, ap, subst, true, some, List, [], ◌∷◌, ◌++◌, length, take, drop,
  get_elem?, if◌then◌else◌, arith, Bool-cases, inl, inr, length-append, drop-append,
}
use mathlib.Core.List.{append-nil}
use goji.Prelude.Bytes.{Bytes, has_prefix}
use goji.Web.Method.{Method}
use goji.Web.Route.{Request, Route}
use goji.Web.Bytecode.{at, StateMachine}
use goji.Web.Bytecode.Trie.{trie, Segments, Tries, tries}
use goji.Web.Bytecode.Walk.{walk_segments, walk_children}
use goji.Web.Bytecode.Encode.{copied, child_state, set_cursor_state, route_state, exit_state}
use goji.Web.Bytecode.Encode.Chunks.{Leaves, Goes-step, Goes-stay, Compared}
use goji.Web.Bytecode.Runner.{running, step}
use goji.Web.Bytecode.Runner.Reach.{Goes, Goes-trans, Goes-weaken, Reaches-step, Reaches-refl}
use goji.Web.Bytecode.Runner.Instructions.{step-set_cursor, step-route, step-child}

module _ {C H : Type 0} (sm : StateMachine) (routes : List (Route C H)) (r : Request) where
  pub Leaves-trans :
      (b b' n u y z : ℕ) (p : Bytes) (xs ys : List ℕ)
      → Leaves sm routes r b u p xs y
      → ((q : Bytes) → Leaves sm routes r b' y q ys z)
      → b + b' ≤ n
      → Leaves sm routes r n u p (xs ++ ys) z
  Leaves-trans b b' n u y z p xs ys (q, g) next le =
      let (q', g') = next q in
      (
        q',
        Goes-weaken sm routes r (b + b') n u z p q' (xs ++ ys)
            (Goes-trans sm routes r b b' u y z p q q' xs ys g g') le,
      )

  pub Leaves-step :
      (b n u u' y : ℕ) (p p' : Bytes) (xs : List ℕ)
      → ((ms : Method) (c : C) → step sm routes r (running u p ms c) ≡ running u' p' ms c)
      → Leaves sm routes r b u' p' xs y
      → suc b ≤ n
      → Leaves sm routes r n u p xs y
  Leaves-step b n u u' y p p' xs e (q, g) le = (
    q,
    Goes-weaken sm routes r (suc b) n u y p q xs (Goes-step sm routes r b u u' y p p' q xs e g) le,
  )

  pub Leaves-weaken :
      (b n u y : ℕ) (p : Bytes) (xs : List ℕ)
      → Leaves sm routes r b u p xs y
      → b ≤ n
      → Leaves sm routes r n u p xs y
  Leaves-weaken b n u y p xs (q, g) le = (q, Goes-weaken sm routes r b n u y p q xs g le)

  -- The exit state at `z` leads on to `x`.
  pub Leaves-exit :
      (b u z x : ℕ) (p : Bytes) (xs : List ℕ)
      → Leaves sm routes r b u p xs z
      → get_elem? sm z ≡ some (exit_state (at x))
      → Leaves sm routes r (b + 1) u p xs x
  Leaves-exit b u z x p xs l e =
      subst (λ l'. Leaves sm routes r (b + 1) u p l' x) (append-nil xs)
        (Leaves-trans b 1 (b + 1) u z x p xs [] l
          (λ q.
            Leaves-step 0 1 z x x q q [] (λ ms c. step-child sm routes r z [] x q ms c e)
              (q, Goes-stay sm routes r 0 x x q refl) (omega arith))
          (omega arith))

  -- One entry of a segment: the child is entered, or it is passed over.
  pub Leaves-child :
      (bc bs bn n u j z y : ℕ) (p s : Bytes) (segs : Segments) (ts : Tries)
      → get_elem? sm u ≡ some (child_state p (at j))
      → (has_prefix s (take 3 p) ≡ true → Compared sm routes r bc j (drop (copied p) s) p s z y)
      → (has_prefix s p ≡ true
          → Leaves sm routes r bs z (drop (length p) s) (walk_segments segs (drop (length p) s)) y)
      → Leaves sm routes r bn (u + 1) s (walk_children ts s) y
      → suc (bc + bs + bn) ≤ n
      → Leaves sm routes r n u s (walk_children (tries (trie p segs) ts) s) y
  unfolding walk_children
  Leaves-child bc bs bn n u j z y p s segs ts e cmp sub next le =
      elim (Bool-cases (has_prefix s (take 3 p))) [
        | inl same ↦ rw same (
            Leaves-step (bc + bs) n u j y s (drop (copied p) s) _
              (λ ms c. step-child sm routes r u p j s ms c e ∙ rw same) (entered (cmp same))
              (omega arith))
        | inr other ↦ rw other (
            Leaves-step bn n u (u + 1) y s s _
              (λ ms c. step-child sm routes r u p j s ms c e ∙ rw other) next (omega arith))
      ]
    where
      entered :
          Compared sm routes r bc j (drop (copied p) s) p s z y
          → Leaves sm routes r
              (bc + bs)
              j
              (drop (copied p) s)
              (if has_prefix s p then walk_segments segs (drop (length p) s) else [])
              y
      entered (inl (h, g)) =
          let (q, g') = sub h in rw h (q, Goes-trans sm routes r bc bs j z y _ _ q [] _ g g')
      entered (inr (h, l)) = rw h (Leaves-weaken bc (bc + bs) j y _ [] l (omega arith))

  -- The path behind the bytes that led to a trie.
  pub cursor_at :
      (w s path : Bytes) (dp : ℕ)
      → length w ≡ dp
      → w ++ s ≡ path
      → (dp ≤ length path) × (drop dp path ≡ s)
  cursor_at w s path dp e e' = (
    omega (arith, length-append w s, ap length e'),
    subst (λ t. drop dp t ≡ s) e' (subst (λ n. drop n (w ++ s) ≡ s) e (drop-append w s)),
  )

  pub Leaves-cursor :
      (b n dp u y : ℕ) (w s q : Bytes) (xs : List ℕ)
      → length w ≡ dp
      → w ++ s ≡ r.path
      → get_elem? sm u ≡ some (set_cursor_state dp)
      → Leaves sm routes r b (u + 1) s xs y
      → suc b ≤ n
      → Leaves sm routes r n u q xs y
  Leaves-cursor b n dp u y w s q xs lw pw e l le =
      let (fits, here) = cursor_at w s r.path dp lw pw in
      Leaves-step b n u (u + 1) y q s xs
        (λ ms c.
          step-set_cursor sm routes r u dp q ms c e fits ∙ ap (λ t. running (u + 1) t ms c) here)
        l le

  pub Leaves-route :
      (b n k u y : ℕ) (s : Bytes) (xs : List ℕ)
      → get_elem? sm u ≡ some (route_state k)
      → Leaves sm routes r b (u + 1) s xs y
      → suc b ≤ n
      → Leaves sm routes r n u s (k ∷ xs) y
  Leaves-route b n k u y s xs e (q, g) le =
      let tried : Goes sm routes r 1 u s (k ∷ []) (u + 1) s = λ ms c.
        Reaches-step sm routes r 0 _ _
          (rw (step-route sm routes r u k s ms c e) (Reaches-refl sm routes r 0 _)) in
      (
        q,
        Goes-weaken sm routes r (1 + b) n u y s q (k ∷ xs)
            (Goes-trans sm routes r 1 b u (u + 1) y s s q (k ∷ []) xs tried g) (omega arith),
      )
