-- ===== src/HomePage.antt =====
-- web/app/page.tsx: `onAudio`, which matches a recording, over the stores of History.antt,
-- Onboarding.antt and Toast.antt.
-- It is split at its `await`s. `fits` says whether the storage takes a list of matches, `now` is the
-- clock's reading, `number_text` is `String` of a number and `score_text` its `toFixed(2)`. The
-- waveform is what `downsampleFloat` returns (Catalog.antt).
pub mod Effects
use clawhum.Prelude.{
  ℕ, Bool, true, false, Option, none, some, List, [], ◌∷◌, ◌++◌, take, if◌then◌else◌,
}
use clawhum.Prelude.Text.{Text, codes}
use clawhum.Model.{MatchResult, PitchContour, StoredMatch}
use clawhum.History.{Browser, save_match}
use clawhum.Onboarding.{Device, StepId, mark_step}
use clawhum.Toast.{Store, ToastInput, toast, success, error}

pub record MatchResponse : Type 0 where
  pub query_id : Text
  pub elapsed_ms : ℕ
  pub count : ℕ
  pub results : List MatchResult

pub record HomePage : Type 0 where
  pub loading : Bool
  pub last : Option MatchResponse
  pub err : Option Text
  pub browser : Browser
  pub checklist : Device
  pub toasts : Store

-- What `onAudio` is given: the file's name, the duration, and the waveform.
pub record Recording : Type 0 where
  pub name : Text
  pub duration_sec : ℕ
  pub waveform : List ℕ

-- Up to the request for a match, and up to the request for the pitch.
unfoldable pub on_audio_begin : HomePage → HomePage
on_audio_begin p = record p { loading = true; err = none }

unfoldable pub on_audio_matched : MatchResponse → HomePage → HomePage
on_audio_matched j p = record p { last = some j }

-- The match that is stored; a failed extraction gives no pitch.
unfoldable pub stored_match : ℕ → Recording → MatchResponse → Option PitchContour → StoredMatch
stored_match now rec j pitch = record {
  query_id = j.query_id;
  ts = now;
  elapsed_ms = j.elapsed_ms;
  count = j.count;
  filename = some rec.name;
  duration_sec = some rec.duration_sec;
  name = none;
  tags = none;
  query_waveform = some rec.waveform;
  query_pitch = pitch;
  results = j.results;
}

unfoldable pub mark_all : Device → Device
unfolding mark_step
mark_all d = mark_step (mark_step (mark_step d StepId.tried) StepId.viewed) StepId.saved

abbrev pub success_title : MatchResponse → Text
success_title j = elim j.results [
  | [] ↦ codes "match complete"
  | r ∷ _ ↦ codes "match: " ++ r.title
]

module _ (number_text score_text : ℕ → Text) where
  unfoldable pub success_toast : MatchResponse → ToastInput
  success_toast j = record {
    variant = none;
    title = [];
    description = some (elim j.results [
      | [] ↦ codes "no candidates above threshold / " ++ (number_text j.elapsed_ms ++ codes "ms")
      | r ∷ _ ↦
          r.artist
          ++ (codes " / score "
              ++ (score_text r.score ++ (codes " / " ++ (number_text j.elapsed_ms ++ codes "ms"))))
    ]);
    duration_ms = none;
    action = some (codes "open details");
  }

  -- The rest of a successful `onAudio`.
  unfoldable pub on_audio_end :
      (List StoredMatch → Bool)
      → ℕ
      → Recording
      → MatchResponse
      → Option PitchContour
      → HomePage
      → HomePage
  unfolding stored_match mark_all success_toast save_match toast
  on_audio_end fits now rec j pitch p = record p {
    browser = save_match fits p.browser (stored_match now rec j pitch);
    checklist = mark_all p.checklist;
    toasts = (toast success p.toasts now (success_title j) (success_toast j)).0;
    loading = false;
  }

-- The `catch` of `onAudio`.
unfoldable pub on_audio_failed : ℕ → Text → HomePage → HomePage
unfolding toast
on_audio_failed now msg p = record p {
  err = some msg;
  toasts =
      (toast error p.toasts now (codes "match failed") (record {
        variant = none;
        title = [];
        description = some (take 200 msg);
        duration_ms = none;
        action = none;
      })).0;
  loading = false;
}
