-- ===== src/Oembed/Size.antt =====
-- What `clampSize` of web/lib/oembed.ts returns.
use clawhum.Prelude.{ℕ, ◌≤◌, ◌≡◌, arith}
use clawhum.Prelude.Text.{Text}
use clawhum.Oembed.{ClampSizeOptions, Number, positive, Dim, number, clamp_size}

abbrev pub IsRange : ClampSizeOptions → Type 0
IsRange o = (o.min_width ≤ o.max_width) × (o.min_height ≤ o.max_height)

-- Both sizes lie in their ranges, whatever is asked for.
pub clamp_size_bounds :
    (number_of : Text → Number) (w h : Dim) (o : ClampSizeOptions)
    → IsRange o
    → let size = clamp_size number_of w h o in
      (o.min_width ≤ size.0)
      × (size.0 ≤ o.max_width)
      × (o.min_height ≤ size.1)
      × (size.1 ≤ o.max_height)
unfolding clamp_size
clamp_size_bounds number_of w h o r = omega arith

-- Positive sizes within the ranges are granted, rounded down.
pub clamp_size_granted :
    (number_of : Text → Number) (o : ClampSizeOptions) (w h : ℕ)
    → (o.min_width ≤ w) × (w ≤ o.max_width)
    → (o.min_height ≤ h) × (h ≤ o.max_height)
    → clamp_size number_of (number (positive w)) (number (positive h)) o ≡ (w, h)
unfolding clamp_size
clamp_size_granted number_of o w h a b = ground arith
