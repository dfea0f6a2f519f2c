-- ===== src/Shares/Expiry.antt =====
-- The tone of the expiry of a share in web/app/shares/page.tsx.
use clawhum.Prelude.{ℕ, ◌+◌, ◌*◌, Bool, ◌||◌, if◌then◌else◌, ltb, leb, ◌==◌, ◌≡◌, arith}
use clawhum.Prelude.Text.{Text}
use clawhum.Shares.{Tone, dim, muted, warn, bad, fmt_expiry}

abbrev pub day_ms : ℕ
day_ms = 86400000

-- The tone by the time that is left, without the units of the label.
abbrev pub tone_at : ℕ → ℕ → Bool → Tone
tone_at now expires_at expired =
    if expires_at == 0
    then dim
    else if expired || leb (expires_at * 1000) now
    then bad
    else if ltb (expires_at * 1000) (now + 4 * day_ms)
    then warn
    else muted

-- A share without expiry is dim; one that is over, by the server's word or by the clock, is bad; any
-- other is a warning exactly when less than four days are left.
pub tone-fmt_expiry :
    (number_text : ℕ → Text) (now expires_at : ℕ) (expired : Bool)
    → (fmt_expiry number_text now expires_at expired).tone ≡ tone_at now expires_at expired
unfolding fmt_expiry
tone-fmt_expiry number_text now expires_at expired = ground arith
