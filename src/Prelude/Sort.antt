-- ===== src/Prelude/Sort.antt =====
-- `Array.prototype.sort`: a stable sort by a comparison, `le x y` for `compare(x, y) <= 0`.
use Prim.Native.Nat.{ℕ, suc, ◌+◌, max}
use mathlib.Core.Path.{◌≡◌, refl, ap, ◌∙◌}
use mathlib.Core.Bool.{Bool, true, false}
use mathlib.Core.List.{List, [], ◌∷◌, ◌++◌, Perm}
use mathlib.Core.List.Perm
use mathlib.Core.Logic.{inl, inr}
use native.Mathlib.Omega.{arith}
use clawhum.Prelude.Tests.{if◌then◌else◌, Bool-cases}
use clawhum.Prelude.Lists.{All, filter, length}

module _ {ℓ} {A : Type ℓ} (le : A → A → Bool) where
  unfoldable pub insert_by : A → List A → List A
  insert_by x [] = x ∷ []
  insert_by x (y ∷ ys) = let rest = insert_by x ys in if le x y then x ∷ y ∷ ys else y ∷ rest

  unfoldable pub sort_by : List A → List A
  unfolding insert_by
  sort_by [] = []
  sort_by (x ∷ xs) = insert_by x (sort_by xs)

  -- Every element stands before those that follow it.
  abbrev pub IsSorted : List A → Type ℓ
  IsSorted [] = Unit
  IsSorted (x ∷ xs) = All (λ y. le x y ≡ true) xs × IsSorted xs

  insert_by-perm : (x : A) (ys : List A) → Perm (insert_by x ys) (x ∷ ys)
  unfolding insert_by
  insert_by-perm x [] = Perm.refl _
  insert_by-perm x (y ∷ ys) = elim (Bool-cases (le x y)) [
    | inl e ↦ rw e (Perm.refl _)
    | inr e ↦ rw e (Perm.trans (Perm.cons y (insert_by-perm x ys)) (Perm.swap x y ys))
  ]

  pub sort_by-perm : (xs : List A) → Perm (sort_by xs) xs
  unfolding sort_by
  sort_by-perm [] = Perm.refl _
  sort_by-perm (x ∷ xs) = Perm.trans (insert_by-perm x _) (Perm.cons x (sort_by-perm xs))

  -- Elements that a test selects and that the comparison does not tell apart keep their order.
  module _ (p : A → Bool) (tied : (x y : A) → p x ≡ true → p y ≡ true → le x y ≡ true) where
    filter-insert_by : (x : A) (ys : List A) → filter p (insert_by x ys) ≡ filter p (x ∷ ys)
    unfolding insert_by
    filter-insert_by x [] = refl
    filter-insert_by x (y ∷ ys) = ground (arith, tied x y, filter-insert_by x ys)

    pub filter-sort_by : (xs : List A) → filter p (sort_by xs) ≡ filter p xs
    unfolding sort_by
    filter-sort_by [] = refl
    filter-sort_by (x ∷ xs) = ground (arith, filter-insert_by x (sort_by xs), filter-sort_by xs)

  -- Sorting and then selecting gives the selected elements, in some order.
  module _ (p : A → Bool) where
    filter-cons-perm :
        (x : A) (xs ys : List A)
        → Perm (filter p xs) (filter p ys)
        → Perm (filter p (x ∷ xs)) (filter p (x ∷ ys))
    filter-cons-perm x xs ys h = elim (Bool-cases (p x)) [
      | inl e ↦ rw e (Perm.cons x h)
      | inr e ↦ rw e h
    ]

    filter-swap-perm :
        (x y : A) (xs : List A) → Perm (filter p (y ∷ x ∷ xs)) (filter p (x ∷ y ∷ xs))
    filter-swap-perm x y xs = elim (Bool-cases (p x)) [
      | inl e ↦ elim (Bool-cases (p y)) [
        | inl f ↦ rw (e, f) (Perm.swap x y _)
        | inr f ↦ rw (e, f) (Perm.refl _)
      ]
      | inr e ↦ elim (Bool-cases (p y)) [
        | inl f ↦ rw (e, f) (Perm.refl _)
        | inr f ↦ rw (e, f) (Perm.refl _)
      ]
    ]

    filter-insert_by-perm :
        (x : A) (ys : List A) → Perm (filter p (insert_by x ys)) (filter p (x ∷ ys))
    unfolding insert_by
    filter-insert_by-perm x [] = Perm.refl _
    filter-insert_by-perm x (y ∷ ys) = elim (Bool-cases (le x y)) [
      | inl e ↦ rw e (Perm.refl _)
      | inr e ↦ rw e (
          Perm.trans (filter-cons-perm y (insert_by x ys) (x ∷ ys) (filter-insert_by-perm x ys))
            (filter-swap-perm x y ys))
    ]

    pub filter-sort_by-perm : (xs : List A) → Perm (filter p (sort_by xs)) (filter p xs)
    unfolding sort_by
    filter-sort_by-perm [] = Perm.refl _
    filter-sort_by-perm (x ∷ xs) =
        Perm.trans (filter-insert_by-perm x (sort_by xs))
          (filter-cons-perm x (sort_by xs) xs (filter-sort_by-perm xs))

    All-filter_kept :
        (x : A) (ys : List A) → All (λ y. le x y ≡ true) ys → All (λ y. le x y ≡ true) (filter p ys)
    All-filter_kept x [] h = tt
    All-filter_kept x (y ∷ ys) (h, hs) = ground (arith, All-filter_kept x ys hs)

    pub filter-IsSorted : (xs : List A) → IsSorted xs → IsSorted (filter p xs)
    filter-IsSorted [] h = tt
    filter-IsSorted (x ∷ xs) (h, hs) = elim (Bool-cases (p x)) [
      | inl e ↦ rw e (All-filter_kept x xs h, filter-IsSorted xs hs)
      | inr e ↦ rw e (filter-IsSorted xs hs)
    ]

  module _ (total : (x y : A) → le x y ≡ false → le y x ≡ true)
      (trans : (x y z : A) → le x y ≡ true → le y z ≡ true → le x z ≡ true) where
    All-weaken :
        (x y : A) (ys : List A)
        → le x y ≡ true
        → All (λ z. le y z ≡ true) ys
        → All (λ z. le x z ≡ true) ys
    All-weaken x y [] e h = tt
    All-weaken x y (z ∷ ys) e (h, hs) = (trans x y z e h, All-weaken x y ys e hs)

    insert_by-below :
        (z x : A) (ys : List A)
        → le z x ≡ true
        → All (λ y. le z y ≡ true) ys
        → All (λ y. le z y ≡ true) (insert_by x ys)
    unfolding insert_by
    insert_by-below z x [] e h = (e, tt)
    insert_by-below z x (y ∷ ys) e (h, hs) = ground (arith, insert_by-below z x ys e hs)

    insert_by-IsSorted : (x : A) (ys : List A) → IsSorted ys → IsSorted (insert_by x ys)
    unfolding insert_by
    insert_by-IsSorted x [] h = (tt, tt)
    insert_by-IsSorted x (y ∷ ys) (h, hs) = elim (Bool-cases (le x y)) [
      | inl e ↦ rw e ((e, All-weaken x y ys e h), (h, hs))
      | inr e ↦ rw e (insert_by-below y x ys (total x y e) h, insert_by-IsSorted x ys hs)
    ]

    pub sort_by-IsSorted : (xs : List A) → IsSorted (sort_by xs)
    unfolding sort_by
    sort_by-IsSorted [] = tt
    sort_by-IsSorted (x ∷ xs) = insert_by-IsSorted x (sort_by xs) (sort_by-IsSorted xs)

  length-insert_by : (x : A) (ys : List A) → length (insert_by x ys) ≡ suc (length ys)
  unfolding insert_by
  length-insert_by x [] = refl
  length-insert_by x (y ∷ ys) = ground (arith, length-insert_by x ys)

  pub length-sort_by : (xs : List A) → length (sort_by xs) ≡ length xs
  unfolding sort_by
  length-sort_by [] = refl
  length-sort_by (x ∷ xs) = length-insert_by x (sort_by xs) ∙ ap suc (length-sort_by xs)

module _ {ℓ} {A : Type ℓ} where
  -- Σ f x, and the greatest f x (0 for none): they do not see an order.
  abbrev pub sum_by : (A → ℕ) → List A → ℕ
  sum_by f [] = 0
  sum_by f (x ∷ xs) = f x + sum_by f xs

  abbrev pub max_by : (A → ℕ) → List A → ℕ
  max_by f [] = 0
  max_by f (x ∷ xs) = max (f x) (max_by f xs)

  module _ (le : A → A → Bool) (f : A → ℕ) where
    sum_by-insert_by : (x : A) (ys : List A) → sum_by f (insert_by le x ys) ≡ f x + sum_by f ys
    unfolding insert_by
    sum_by-insert_by x [] = refl
    sum_by-insert_by x (y ∷ ys) = ground (arith, sum_by-insert_by x ys)

    pub sum_by-sort_by : (xs : List A) → sum_by f (sort_by le xs) ≡ sum_by f xs
    unfolding sort_by
    sum_by-sort_by [] = refl
    sum_by-sort_by (x ∷ xs) = omega (arith, sum_by-insert_by x (sort_by le xs), sum_by-sort_by xs)

    max_by-insert_by :
        (x : A) (ys : List A) → max_by f (insert_by le x ys) ≡ max (f x) (max_by f ys)
    unfolding insert_by
    max_by-insert_by x [] = refl
    max_by-insert_by x (y ∷ ys) = ground (arith, max_by-insert_by x ys)

    pub max_by-sort_by : (xs : List A) → max_by f (sort_by le xs) ≡ max_by f xs
    unfolding sort_by
    max_by-sort_by [] = refl
    max_by-sort_by (x ∷ xs) = omega (arith, max_by-insert_by x (sort_by le xs), max_by-sort_by xs)

  pub sum_by-append : (f : A → ℕ) (xs ys : List A) → sum_by f (xs ++ ys) ≡ sum_by f xs + sum_by f ys
  sum_by-append f [] ys = omega arith
  sum_by-append f (x ∷ xs) ys = omega (arith, sum_by-append f xs ys)
