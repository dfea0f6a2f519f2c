-- ===== src/Prelude/TextOrder.antt =====
-- The default order of `Array.prototype.sort` on strings, by code units, and sets under a sort.
use clawhum.Prelude.Tests.{ltb, ◌==◌}
use clawhum.Prelude.Text.{Text, text_eq, text_eq_comm}
use clawhum.Prelude.TextSet.{has, Distinct}
use clawhum.Prelude.Sort.{insert_by, sort_by}
use mathlib.Core.Path.{◌≡◌, refl}
use mathlib.Core.Bool.{Bool, true, false, ◌&&◌, ◌||◌}
use mathlib.Core.List.{List, [], ◌∷◌}
use native.Mathlib.Omega.{arith}

unfoldable pub text_le : Text → Text → Bool
text_le [] t = true
text_le (a ∷ s) [] = false
text_le (a ∷ s) (b ∷ t) = ltb a b || ((a == b) && text_le s t)

pub text_le-total : (s t : Text) → text_le s t ≡ false → text_le t s ≡ true
unfolding text_le
text_le-total [] t h = cc
text_le-total (a ∷ s) [] h = refl
text_le-total (a ∷ s) (b ∷ t) h = ground (arith, text_le-total s t)

pub text_le_trans : (s t u : Text) → text_le s t ≡ true → text_le t u ≡ true → text_le s u ≡ true
unfolding text_le
text_le_trans [] t u h k = refl
text_le_trans (a ∷ s) [] u h k = cc
text_le_trans (a ∷ s) (b ∷ t) [] h k = cc
text_le_trans (a ∷ s) (b ∷ t) (c ∷ u) h k = ground (arith, text_le_trans s t u)

module _ (le : Text → Text → Bool) where
  has-insert_by :
      (t : Text) (us : List Text) (u : Text) → has (insert_by le t us) u ≡ (text_eq t u || has us u)
  unfolding insert_by
  has-insert_by t [] u = refl
  has-insert_by t (v ∷ us) u = ground (arith, has-insert_by t us u)

  pub has-sort_by : (us : List Text) (u : Text) → has (sort_by le us) u ≡ has us u
  unfolding sort_by
  has-sort_by [] u = refl
  has-sort_by (t ∷ us) u = ground (arith, has-insert_by t (sort_by le us) u, has-sort_by us u)

  Distinct-insert_by :
      (t : Text) (us : List Text) → has us t ≡ false → Distinct us → Distinct (insert_by le t us)
  unfolding insert_by
  Distinct-insert_by t [] h d = (refl, tt)
  Distinct-insert_by t (v ∷ us) h (e, d) =
      ground (arith, Distinct-insert_by t us, has-insert_by t us v, text_eq_comm t v)

  pub Distinct-sort_by : (us : List Text) → Distinct us → Distinct (sort_by le us)
  unfolding sort_by
  Distinct-sort_by [] d = tt
  Distinct-sort_by (t ∷ us) (e, d) =
      let absent : has (sort_by le us) t ≡ false = ground (arith, has-sort_by us t) in
      Distinct-insert_by t (sort_by le us) absent (Distinct-sort_by us d)
