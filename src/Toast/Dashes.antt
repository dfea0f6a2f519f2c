-- ===== src/Toast/Dashes.antt =====
-- What `stripEmDash` of web/lib/toast.ts leaves.
use clawhum.Prelude.{[], ◌∷◌, All, ◌≡◌, ◌≢◌, refl, arith}
use clawhum.Prelude.Text.{Text}
use clawhum.Toast.{replace_em, replace_en, strip_em_dash}

abbrev pub NoDash : Text → Type 0
NoDash s = All (λ c. (c ≢ 0x2014) × (c ≢ 0x2013)) s

replace_em-none : (s : Text) → All (λ c. c ≢ 0x2014) (replace_em s)
unfolding replace_em
replace_em-none [] = tt
replace_em-none (c ∷ s) = ground (arith, replace_em-none s)

replace_en-none : (s : Text) → All (λ c. c ≢ 0x2014) s → NoDash (replace_en s)
unfolding replace_en
replace_en-none [] h = tt
replace_en-none (c ∷ s) (e, h) = ground (arith, replace_en-none s h)

replace_em-same : (s : Text) → NoDash s → replace_em s ≡ s
unfolding replace_em
replace_em-same [] h = refl
replace_em-same (c ∷ s) (e, h) = ground (arith, replace_em-same s h)

replace_en-same : (s : Text) → NoDash s → replace_en s ≡ s
unfolding replace_en
replace_en-same [] h = refl
replace_en-same (c ∷ s) (e, h) = ground (arith, replace_en-same s h)

-- The result holds no em dash and no en dash.
pub strip_em_dash-NoDash : (s : Text) → NoDash (strip_em_dash s)
unfolding strip_em_dash
strip_em_dash-NoDash s = replace_en-none (replace_em s) (replace_em-none s)

-- A text without dashes is returned as it is, so stripping twice is stripping once.
pub strip_em_dash_idempotent : (s : Text) → strip_em_dash (strip_em_dash s) ≡ strip_em_dash s
strip_em_dash_idempotent s = same (strip_em_dash s) (strip_em_dash-NoDash s)
  where
    same : (t : Text) → NoDash t → strip_em_dash t ≡ t
    same t h = unfold strip_em_dash in rw (replace_em-same t h) (replace_en-same t h)
