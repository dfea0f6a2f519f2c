-- ===== src/Tests/Settings.antt =====
-- The preferences, the notification log, the checklist and the saved key on concrete inputs.
use clawhum.Prelude.{
  Option, any, ◌==◌, if◌then◌else◌, [], ◌≤◌, Bool, true, false, none, some, length, ◌≡◌, refl,
}
use clawhum.Prelude.Text.{Text, codes, starts_with}
use clawhum.Prelude.TextSet.{has, Distinct}
use clawhum.Json.{Json, arr, cons, nil, absent, malformed, parsed}
use clawhum.NotifyPrefs.{
  NotifyPrefs, FiredEntry, match_kind, fired_max, load_prefs, save_prefs, load_fired, append_fired,
  entry_json, default_prefs,
}
use clawhum.NotifyPrefs
use clawhum.NotifyPrefs.Fired.{ids, logged, load-append_fired}
use clawhum.Onboarding
use clawhum.Onboarding.{
  StepId, load_state, is_first_run, mark_step, dismiss, hide, set_step, empty_state,
}
use clawhum.Onboarding.Laws.{load-operations}
use clawhum.ApiKey
use clawhum.ApiKey.{
  Headers, has_header, url_text, request, FetchInit, header_name, base_headers, init_or_empty,
  patched_init, mask_key, is_local, get_api_key, input_url,
}
use clawhum.ApiKey.Patching.{IsSent, sent_key, patched_init-IsSent}

abbrev roomy : Json → Bool
roomy v = true

abbrev device : NotifyPrefs.Device
device = record { window = true; prefs = malformed; fired = absent; events = 0 }

abbrev loud : NotifyPrefs
loud = record default_prefs { enabled = true; sound = true }

abbrev entry : FiredEntry
entry = record {
  id = codes "e1";
  kind = match_kind;
  title = codes "clawhum: Blue";
  body = codes "ok";
  at = 5;
  href = codes "/r/1";
}

abbrev device_after : NotifyPrefs.Device
device_after = record device { fired = parsed (arr (cons (entry_json entry) nil)); events = 1 }

entry_logged : append_fired roomy device entry ≡ some device_after
unfolding append_fired load_fired
entry_logged = refl

load-append_fired_example :
    (load_fired device_after ≡ logged device entry)
    × (length (load_fired device_after) ≤ fired_max)
    × Distinct (ids (load_fired device_after))
    × (has (ids (load_fired device_after)) entry.id ≡ true)
unfolding load_fired
load-append_fired_example = load-append_fired roomy device device_after entry refl entry_logged tt

abbrev fresh_device : Onboarding.Device
fresh_device = record { window = true; cell = malformed; writable = true; events = 0 }

load-operations_example :
    ((id : StepId)
      → (load_state (mark_step fresh_device id) ≡ record (load_state fresh_device) {
        steps = set_step (load_state fresh_device).steps id true;
      })
        × (is_first_run (mark_step fresh_device id) ≡ false))
    × (load_state (dismiss fresh_device) ≡ record (load_state fresh_device) { dismissed = true })
    × (load_state (hide fresh_device) ≡ record (load_state fresh_device) { hidden = true })
    × (load_state (Onboarding.reset fresh_device) ≡ empty_state)
load-operations_example = load-operations fresh_device (refl, refl)

abbrev keyed : ApiKey.Device
keyed = record { window = true; key = some (codes "k1"); works = true; events = 0 }

abbrev origin : Text
origin = codes "https://hum.app"

-- Headers that keep what they are given, and refuse a value with a line break.
abbrev headers_of : Headers → Option Headers
headers_of hs = some hs

abbrev value_of : Text → Option Text
value_of t = if any (λ c. c == b'\n') t then none else some t

patched_init-IsSent_example :
    IsSent none
      (base_headers (url_text (codes "/api/match")) none)
      (sent_key none (some (codes "k1")))
      (patched_init headers_of value_of keyed origin (url_text (codes "/api/match")) none)
unfolding is_local input_url starts_with get_api_key base_headers
patched_init-IsSent_example =
    patched_init-IsSent headers_of value_of keyed origin (url_text (codes "/api/match")) none []
      refl refl refl

-- A saved key with a line break is not sent, and the call goes through.
refused_key :
    patched_init headers_of value_of
      (record keyed { key = some (codes "k1\n") })
      origin
      (url_text (codes "/api/match"))
      none
    ≡ none
unfolding patched_init is_local input_url starts_with get_api_key base_headers has_header
refused_key = refl
