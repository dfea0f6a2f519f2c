-- ===== src/Privacy/Confirmation.antt =====
-- Which texts confirm an erase in web/lib/privacy.ts.
use clawhum.Prelude.{◌≡◌}
use clawhum.Prelude.Text.{Text, trim}
use clawhum.Prelude.TextTrim.{trim_idempotent}
use clawhum.Privacy.{is_erase_confirmed}

-- Spaces around the text do not matter: it confirms exactly when its trimmed text does.
pub is_erase_confirmed-trim :
    (input : Text) → is_erase_confirmed (trim input) ≡ is_erase_confirmed input
unfolding is_erase_confirmed
is_erase_confirmed-trim input = rw (trim_idempotent input)
