-- ===== src/Catalog/Samples.antt =====
-- How many samples `downsampleFloat` of web/lib/history.ts keeps. The stride is a quotient of floats
-- in the source; with the default target, a power of two, the indices are those of the model.
use native.Mathlib.Nat.{div-lt_iff_lt-mul}
use clawhum.Prelude.{
  ℕ, zero, suc, ◌+◌, ◌*◌, ◌/◌, ◌≤◌, ◌<◌, min, none, List, [], ◌∷◌, leb, leb→le, length, get_elem?,
  All, ◌≡◌, ◌≢◌, refl, arith, Bool-cases, inl, inr,
}
use clawhum.Catalog.{pick_samples, all_samples, downsample_float}

-- The stride keeps every index inside the list.
index_bound : (i n target : ℕ) → i < target → 0 < n → i * n / target < n
index_bound i n target h k = (div-lt_iff_lt-mul (omega arith)).1 (grind arith)

module _ {ℓ} {A : Type ℓ} where
  get_elem?-some : (a : List A) (i : ℕ) → i < length a → get_elem? a i ≢ none
  get_elem?-some [] i h = absurd (omega arith)
  get_elem?-some (x ∷ a) zero h = cc
  get_elem?-some (x ∷ a) (suc i) h = get_elem?-some a i (omega arith)

  pick_samples-some :
      (a : List A) (target i left : ℕ)
      → 0 < length a
      → i + left ≤ target
      → All (λ s. s ≢ none) (pick_samples a target i left)
  unfolding pick_samples
  pick_samples-some a target i zero k h = tt
  pick_samples-some a target i (suc left) k h = (
    get_elem?-some a _ (index_bound i (length a) target (omega arith) k),
    pick_samples-some a target (i + 1) left k (omega arith),
  )

  length-pick_samples :
      (a : List A) (target i left : ℕ) → length (pick_samples a target i left) ≡ left
  unfolding pick_samples
  length-pick_samples a target i zero = refl
  length-pick_samples a target i (suc left) =
      omega (arith, length-pick_samples a target (i + 1) left)

  length-all_samples : (a : List A) → length (all_samples a) ≡ length a
  unfolding all_samples
  length-all_samples [] = refl
  length-all_samples (x ∷ a) = omega (arith, length-all_samples a)

  all_samples-some : (a : List A) → All (λ s. s ≢ none) (all_samples a)
  unfolding all_samples
  all_samples-some [] = tt
  all_samples-some (x ∷ a) = (cc, all_samples-some a)

  -- Downsampling returns all samples if they are no more than the target and as many as the target
  -- otherwise, and never reads outside the list.
  pub downsample_float-some :
      (a : List A) (target : ℕ)
      → (length (downsample_float a target) ≡ min (length a) target)
        × All (λ s. s ≢ none) (downsample_float a target)
  unfolding downsample_float
  downsample_float-some a target = elim (Bool-cases (leb (length a) target)) [
    | inl few ↦ rw few (omega (arith, length-all_samples a, leb→le _ _ few), all_samples-some a)
    | inr many ↦
        let over : target < length a = ground arith in
        rw many (
          omega (arith, length-pick_samples a target 0 target),
          pick_samples-some a target 0 target (omega arith) (omega arith),
        )
  ]
