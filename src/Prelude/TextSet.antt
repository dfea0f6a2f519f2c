-- ===== src/Prelude/TextSet.antt =====
-- `Set<string>` as the list of its elements in insertion order: `has`, `add` and `delete`.
use clawhum.Prelude.Tests.{if◌then◌else◌, Bool-cases}
use clawhum.Prelude.Lists.{filter}
use clawhum.Prelude.Text.{Text, text_eq, eq_iff, text_eq_refl, text_eq_comm}
use mathlib.Core.Path.{◌≡◌, refl}
use mathlib.Core.Bool.{Bool, false, not, ◌&&◌, ◌||◌}
use mathlib.Core.List.{List, [], ◌∷◌, ◌++◌}
use mathlib.Core.Logic.{inl, inr}
use native.Mathlib.Omega.{arith}

abbrev pub has : List Text → Text → Bool
has [] t = false
has (u ∷ us) t = text_eq u t || has us t

abbrev pub add : List Text → Text → List Text
add us t = if has us t then us else us ++ t ∷ []

abbrev pub delete : List Text → Text → List Text
delete us t = filter (λ u. not (text_eq u t)) us

-- No text occurs twice.
abbrev pub Distinct : List Text → Type 0
Distinct [] = Unit
Distinct (u ∷ us) = (has us u ≡ false) × Distinct us

pub has-append : (us vs : List Text) (t : Text) → has (us ++ vs) t ≡ (has us t || has vs t)
has-append [] vs t = refl
has-append (u ∷ us) vs t = ground (arith, has-append us vs t)

pub has-add : (us : List Text) (t u : Text) → has (add us t) u ≡ (has us u || text_eq t u)
has-add us t u = ground (arith, has-append us (t ∷ []) u, eq_iff t u)

pub has-filter :
    (p : Text → Bool) (us : List Text) (t : Text) → has (filter p us) t ≡ (has us t && p t)
has-filter p [] t = refl
has-filter p (u ∷ us) t = elim (Bool-cases (text_eq u t)) [
  | inl e ↦ rw ((eq_iff u t).0 e) (ground (arith, has-filter p us t, text_eq_refl t))
  | inr e ↦ ground (arith, has-filter p us t)
]

pub has-delete :
    (us : List Text) (t u : Text) → has (delete us t) u ≡ (has us u && not (text_eq u t))
has-delete us t u = has-filter (λ v. not (text_eq v t)) us u

pub Distinct-snoc :
    (us : List Text) (t : Text) → has us t ≡ false → Distinct us → Distinct (us ++ t ∷ [])
Distinct-snoc [] t h d = (refl, tt)
Distinct-snoc (u ∷ us) t h (e, d) = (
  ground (arith, has-append us (t ∷ []) u, text_eq_comm u t),
  Distinct-snoc us t (ground arith) d,
)

pub Distinct-add : (us : List Text) (t : Text) → Distinct us → Distinct (add us t)
Distinct-add us t d = elim (Bool-cases (has us t)) [
  | inl e ↦ rw e d
  | inr e ↦ rw e (Distinct-snoc us t e d)
]

pub Distinct-filter : (p : Text → Bool) (us : List Text) → Distinct us → Distinct (filter p us)
Distinct-filter p [] d = tt
Distinct-filter p (u ∷ us) (e, d) = ground (arith, Distinct-filter p us d, has-filter p us u)

pub Distinct-middle :
    (us : List Text) (t : Text) (vs : List Text) → Distinct (us ++ t ∷ vs) → has us t ≡ false
Distinct-middle [] t vs d = refl
Distinct-middle (u ∷ us) t vs (e, d) =
    ground (arith, Distinct-middle us t vs d, has-append us (t ∷ vs) u, text_eq_comm u t)
