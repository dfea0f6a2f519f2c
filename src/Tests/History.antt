-- ===== src/Tests/History.antt =====
-- Stored matches and tags of web/lib/history.ts on concrete inputs.
use clawhum.Prelude.{
  Bool, true, false, Option, none, some, List, [], ◌∷◌, map, if◌then◌else◌, length, ltb, ◌≡◌, refl,
}
use clawhum.Prelude.Text.{Text, codes, text_eq}
use clawhum.Model.{StoredMatch}
use clawhum.Tags.{normalise_tags}
use clawhum.History.{
  holds, Browser, load_matches, get_match, drop_waveform, history_post, save_match, update_match,
  Patch, apply_patch,
}
use clawhum.History.Saving.{latest, load-save_match}
use clawhum.History.Editing.{get-update_match}

abbrev raw_tags : List (Option Text)
raw_tags =
    some (codes "  Lo-Fi Beats ")
    ∷ none
    ∷ some (codes "LO-FI  BEATS")
    ∷ some (codes " ")
    ∷ some (codes "jazz")
    ∷ []

normal_tags : normalise_tags raw_tags ≡ codes "lo-fi-beats" ∷ codes "jazz" ∷ []
unfolding normalise_tags text_eq
normal_tags = refl

abbrev hum : StoredMatch
hum = record {
  query_id = codes "q1";
  ts = 1000;
  elapsed_ms = 40;
  count = 0;
  filename = none;
  duration_sec = none;
  name = none;
  tags = none;
  query_waveform = some (1 ∷ 2 ∷ []);
  query_pitch = none;
  results = [];
}

abbrev tune : StoredMatch
tune = record hum { query_id = codes "q2"; ts = 2000 }

abbrev one_stored : Browser
one_stored = record { window = true; slot = holds (hum ∷ []); posted = [] }

-- A quota that a list with a waveform exceeds.
abbrev no_waveforms : List StoredMatch → Bool
no_waveforms [] = true
no_waveforms (m ∷ ms) = elim m.query_waveform [ none ↦ no_waveforms ms | some _ ↦ false ]

load-save_match_example :
    (load_matches (save_match no_waveforms one_stored tune) ≡ (
      if no_waveforms (latest one_stored tune)
      then latest one_stored tune
      else if no_waveforms (map drop_waveform (latest one_stored tune))
      then map drop_waveform (latest one_stored tune)
      else load_matches one_stored))
    × ((save_match no_waveforms one_stored tune).posted ≡ history_post tune ∷ [])
load-save_match_example = load-save_match no_waveforms one_stored tune refl

abbrev roomy : List StoredMatch → Bool
roomy ms = ltb (length ms) 3

abbrev two_stored : Browser
two_stored = record one_stored { slot = holds (tune ∷ hum ∷ []) }

abbrev rename : Patch
rename = record { name = some (some (codes " blue ")); tags = some (some raw_tags) }

get-update_match_example :
    ((update_match roomy two_stored (codes "q1") rename).1 ≡ some (apply_patch rename hum))
    × ((key : Text)
        → get_match (update_match roomy two_stored (codes "q1") rename).0 key ≡ (
            if text_eq (codes "q1") key
            then some (apply_patch rename hum)
            else get_match two_stored key))
    × (length (load_matches (update_match roomy two_stored (codes "q1") rename).0)
        ≡ length (load_matches two_stored))
unfolding load_matches get_match text_eq
get-update_match_example = get-update_match roomy two_stored (codes "q1") rename hum refl refl refl
