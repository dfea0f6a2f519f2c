-- ===== src/Privacy.antt =====
-- web/lib/privacy.ts: the confirmation of an erase, the summary of an export, and the erase answer.
-- A number of the answer is a natural number. `exportFilename` is not modelled.
pub mod Confirmation
use clawhum.Prelude.{
  ℕ, Bool, true, false, not, Option, none, some, List, [], ◌∷◌, if◌then◌else◌, ◌==◌, length,
}
use clawhum.Prelude.Text.{Text, codes, text_eq, trim}
use clawhum.Json.{Json, bool, num, str, arr, obj, get}

-- The fields of an export that `summarise` reads; a count is `none` where it is not finite.
pub record PrivacyExport : Type 0 where
  pub actor : Text
  pub tenant_id : Text
  pub audit_event_count : Option ℕ
  pub feedback_row_count : Option ℕ

pub record EraseResult : Type 0 where
  pub actor : Text
  pub redacted_events : ℕ
  pub redacted_feedback_rows : ℕ
  pub ok : Bool

abbrev pub erase_confirmation : Text
erase_confirmation = codes "ERASE"

unfoldable pub is_erase_confirmed : Text → Bool
is_erase_confirmed input = text_eq (trim input) erase_confirmation

pub record ExportSummary : Type 0 where
  pub audit : ℕ
  pub feedback : ℕ
  pub bytes : ℕ
  pub actor : Text
  pub tenant_id : Text

abbrev pub count_or_zero : Option ℕ → ℕ
count_or_zero none = 0
count_or_zero (some n) = n

-- `t || d`
abbrev pub text_or : Text → Text → Text
text_or [] d = d
text_or (c ∷ s) d = c ∷ s

unfoldable pub summarise : PrivacyExport → Text → ExportSummary
summarise payload raw = record {
  audit = count_or_zero payload.audit_event_count;
  feedback = count_or_zero payload.feedback_row_count;
  bytes = length raw;
  actor = text_or payload.actor (codes "anonymous");
  tenant_id = text_or payload.tenant_id (codes "default");
}

-- `num(k)`
abbrev pub number_of : Option Json → ℕ
number_of (some (num n)) = n
number_of (some Json.null) = 0
number_of (some (bool b)) = 0
number_of (some (str s)) = 0
number_of (some (arr vs)) = 0
number_of (some (obj fs)) = 0
number_of none = 0

abbrev pub actor_of : Option Json → Text
actor_of (some (str s)) = s
actor_of (some Json.null) = codes "anonymous"
actor_of (some (bool b)) = codes "anonymous"
actor_of (some (num n)) = codes "anonymous"
actor_of (some (arr vs)) = codes "anonymous"
actor_of (some (obj fs)) = codes "anonymous"
actor_of none = codes "anonymous"

-- `body.ok !== false`
abbrev pub is_not_false : Option Json → Bool
is_not_false (some (bool b)) = b
is_not_false (some Json.null) = true
is_not_false (some (num n)) = true
is_not_false (some (str s)) = true
is_not_false (some (arr vs)) = true
is_not_false (some (obj fs)) = true
is_not_false none = true

-- `a || b` on numbers.
abbrev pub nonzero_or : ℕ → ℕ → ℕ
nonzero_or a b = if a == 0 then b else a

unfoldable pub normalise_erase : Json → EraseResult
unfolding get
normalise_erase body =
    let field_number = λ (k : Text). number_of (get (some body) k) in
    record {
      actor = actor_of (get (some body) (codes "actor"));
      redacted_events =
          nonzero_or (field_number (codes "redacted_events"))
            (nonzero_or (field_number (codes "redacted")) (field_number (codes "count")));
      redacted_feedback_rows =
          nonzero_or (field_number (codes "redacted_feedback_rows"))
            (field_number (codes "feedback_redacted"));
      ok = is_not_false (get (some body) (codes "ok"));
    }
