-- ===== src/Insights/Days/Fuel.antt =====
-- The loop over the days in web/app/insights/page.tsx ends by its own test.
use mathlib.Core.Path.{subst}
use clawhum.Prelude.{ℕ, zero, suc, ◌+◌, ◌*◌, ◌<◌, List, [], ◌≡◌, refl, sym, ◌∙◌, arith}
use clawhum.Prelude.Text.{Text}
use clawhum.Insights.Days.{Day, one_day, points_from}

module _ (day_key : ℕ → Text) (start_of_day : ℕ → ℕ) where
  points_from_stop :
      (fuel : ℕ) (days : List Day) (t last : ℕ)
      → last < t
      → points_from day_key start_of_day fuel days t last ≡ []
  unfolding points_from
  points_from_stop zero days t last h = refl
  points_from_stop (suc fuel) days t last h = ground arith

  -- With fuel for every day up to the last, more fuel changes nothing: the loop ends by its test.
  pub points_from_enough :
      (fuel extra : ℕ) (days : List Day) (t last : ℕ)
      → last < t + fuel * one_day
      → points_from day_key start_of_day (fuel + extra) days t last
        ≡ points_from day_key start_of_day fuel days t last
  unfolding points_from
  points_from_enough zero extra days t last h =
      points_from_stop (0 + extra) days t last (omega arith)
      ∙ sym (points_from_stop 0 days t last (omega arith))
  points_from_enough (suc fuel) extra days t last h =
      subst
        (λ n.
          points_from day_key start_of_day n days t last
          ≡ points_from day_key start_of_day (suc fuel) days t last)
        (the_sum fuel extra)
        (round fuel extra (points_from_enough fuel extra days (t + one_day) last (omega arith)))
    where
      the_sum : (n k : ℕ) → suc (n + k) ≡ suc n + k
      the_sum n k = omega arith

      round :
          (n k : ℕ)
          → points_from day_key start_of_day (n + k) days (t + one_day) last
            ≡ points_from day_key start_of_day n days (t + one_day) last
          → points_from day_key start_of_day (suc (n + k)) days t last
            ≡ points_from day_key start_of_day (suc n) days t last
      round n k e = ground (arith, e)
