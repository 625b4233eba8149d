-- ===== src/Prelude/Family.antt =====
-- Families indexed by numbers, with one member replaced.
use Prim.Native.Nat.{ℕ}
use mathlib.Core.Path.{◌≡◌, refl, sym, subst}
use mathlib.Core.Logic.{◌≢◌, inl, inr}
use native.Mathlib.Omega.{arith}
use goji.Prelude.Tests.{◌==◌, if◌then◌else◌, Bool-cases}

abbrev pub update {ℓ} : {A : Type ℓ} → ℕ → A → (ℕ → A) → ℕ → A
update k v f j = if j == k then v else f j

module _ {ℓ κ} {A : Type ℓ} where
  -- What holds of the new member and of all others holds of every member.
  pub update-all :
      (P : ℕ → A → Type κ) (k : ℕ) (v : A) (f : ℕ → A)
      → P k v
      → ((j : ℕ) → j ≢ k → P j (f j))
      → (j : ℕ) → P j (update k v f j)
  update-all P k v f h others j = elim (Bool-cases (j == k)) [
    | inl same ↦ let e : j ≡ k = ground (arith, same) in rw same (subst (λ m. P m v) (sym e) h)
    | inr other ↦ rw other (others j (ground (arith, other)))
  ]

module _ {ℓ} {A : Type ℓ} where
  pub update-same : (k : ℕ) (v : A) (f : ℕ → A) → update k v f k ≡ v
  update-same k v f =
      update-all (λ j a. j ≡ k → a ≡ v) k v f (λ e. refl) (λ j o e. absurd (o e)) k refl

  pub update-other : (k j : ℕ) (v : A) (f : ℕ → A) → j ≢ k → update k v f j ≡ f j
  update-other k j v f o =
      update-all (λ i a. i ≢ k → a ≡ f i) k v f (λ d. absurd (d refl)) (λ i d d'. refl) j o
