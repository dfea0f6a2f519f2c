-- ===== src/Tests/SudoSession.antt =====
-- The sudo session of web/app/settings/security/sudo/page.tsx on concrete inputs.
use clawhum.Prelude.{ℕ, ◌+◌, false, Option, none, some, [], ◌∷◌, if◌then◌else◌}
use clawhum.Prelude.Text.{Text, codes}
use clawhum.Json.{Json, num, str, null, bool, arr, obj, absent}
use clawhum.SudoSession.{Held, SudoPage, IssueResp}

abbrev to_number : Json → Option ℕ
to_number (num n) = some n
to_number null = some 0
to_number (bool b) = some (if b then 1 else 0)
to_number (str s) = none
to_number (arr vs) = none
to_number (obj fs) = none

abbrev number_text : ℕ → Text
number_text n = (b'0' + n) ∷ []

abbrev any_item : Json → Option Text
any_item j = none

abbrev session : Held
session = record { token = str (codes "t"); expires_at = num 100 }

abbrev page : SudoPage
page = record {
  slot = absent;
  status = none;
  held = none;
  now = 10;
  code = codes "123456";
  busy = false;
  error = none;
  load_error = none;
}

abbrev holding : SudoPage
holding = record page { held = some session }

abbrev issued : IssueResp
issued = record { token = str (codes "t"); ttl_seconds = 90; expires_at = num 100 }
