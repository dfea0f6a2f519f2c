-- ===== src/Prelude/TextTrim.antt =====
-- `trim` and `toLowerCase` done twice.
use Prim.Native.Nat.{ℕ}
use mathlib.Core.Path.{◌≡◌, refl, ap, ◌∙◌}
use mathlib.Core.Logic.{inl, inr}
use mathlib.Core.Bool.{false, ◌&&◌}
use mathlib.Core.List.{[], ◌∷◌, map}
use native.Mathlib.Omega.{arith}
use clawhum.Prelude.Tests.{Bool-cases}
use clawhum.Prelude.Lists.{is_empty}
use clawhum.Prelude.Text.{Text, is_space, trim_start, trim_end, trim, lower_unit, lower}

trim_end_idempotent : (s : Text) → trim_end (trim_end s) ≡ trim_end s
unfolding trim_end
trim_end_idempotent [] = refl
trim_end_idempotent (c ∷ s) = elim (Bool-cases (is_space c && is_empty (trim_end s))) [
  | inl e ↦ rw e
  | inr e ↦ rw (e, trim_end_idempotent s, e)
]

-- A text that does not start with a space keeps its first unit.
trim_start-trim_end :
    (c : ℕ) (s : Text) → is_space c ≡ false → trim_start (trim_end (c ∷ s)) ≡ trim_end (c ∷ s)
unfolding trim_start trim_end
trim_start-trim_end c s h = rw (h, h)

trim_start-trim : (s : Text) → trim_start (trim s) ≡ trim s
unfolding trim trim_start
trim_start-trim [] = refl
trim_start-trim (c ∷ s) = elim (Bool-cases (is_space c)) [
  | inl e ↦ rw e (trim_start-trim s)
  | inr e ↦ rw e (trim_start-trim_end c s e)
]

pub trim_idempotent : (s : Text) → trim (trim s) ≡ trim s
unfolding trim
trim_idempotent s = ap trim_end (trim_start-trim s) ∙ trim_end_idempotent (trim_start s)

space-lower_unit : (c : ℕ) → is_space (lower_unit c) ≡ is_space c
unfolding is_space lower_unit
space-lower_unit c = ground arith

trim_start-lower : (s : Text) → trim_start (lower s) ≡ lower (trim_start s)
unfolding trim_start lower
trim_start-lower [] = refl
trim_start-lower (c ∷ s) = elim (Bool-cases (is_space c)) [
  | inl e ↦ rw (space-lower_unit c, e) (trim_start-lower s)
  | inr e ↦ rw (space-lower_unit c, e)
]

is_empty-lower : (s : Text) → is_empty (lower s) ≡ is_empty s
unfolding lower
is_empty-lower [] = refl
is_empty-lower (c ∷ s) = refl

trim_end-lower : (s : Text) → trim_end (lower s) ≡ lower (trim_end s)
unfolding trim_end lower
trim_end-lower [] = refl
trim_end-lower (c ∷ s) =
    let rest : trim_end (map lower_unit s) ≡ lower (trim_end s) = trim_end-lower s in
    elim (Bool-cases (is_space c && is_empty (trim_end s))) [
      | inl e ↦ rw (space-lower_unit c, rest, is_empty-lower (trim_end s), e)
      | inr e ↦ rw (space-lower_unit c, rest, is_empty-lower (trim_end s), e)
    ]

lower_unit_idempotent : (c : ℕ) → lower_unit (lower_unit c) ≡ lower_unit c
unfolding lower_unit
lower_unit_idempotent c = ground arith

lower_idempotent : (s : Text) → lower (lower s) ≡ lower s
unfolding lower
lower_idempotent [] = refl
lower_idempotent (c ∷ s) = rw (lower_unit_idempotent c, lower_idempotent s)

trim-lower : (s : Text) → trim (lower s) ≡ lower (trim s)
unfolding trim
trim-lower s = rw (trim_start-lower s, trim_end-lower (trim_start s))

-- Trimming and lowering twice is doing it once.
pub lower-trim_idempotent : (s : Text) → lower (trim (lower (trim s))) ≡ lower (trim s)
lower-trim_idempotent s =
    rw (trim-lower (trim s), lower_idempotent (trim (trim s)), trim_idempotent s)
