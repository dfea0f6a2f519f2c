-- ===== src/HomePage/Effects.antt =====
-- What `onAudio` of web/app/page.tsx leaves in the stores.
use mathlib.Core.Option
use clawhum.Prelude.{
  ℕ, Bool, true, false, Option, none, some, List, map, if◌then◌else◌, head?, ◌≡◌, refl, arith,
}
use clawhum.Prelude.Text.{Text}
use clawhum.Model.{PitchContour, StoredMatch}
use clawhum.History.{drop_waveform, get_match}
use clawhum.History.Saving.{latest, get-save_match}
use clawhum.Onboarding.{
  Device, StepId, OnboardingState, mark_step, load_state, is_complete, write_raw,
}
use clawhum.Onboarding.Laws.{IsStored, load-operations}
use clawhum.Toast.{Store, ToastVariant, Toast, success, toast, show_toast, emit, new_toast}
use clawhum.HomePage.{
  HomePage, Recording, MatchResponse, stored_match, mark_all, on_audio_begin, on_audio_matched,
  on_audio_end,
}

mark_step-IsStored : (d : Device) (id : StepId) → IsStored d → IsStored (mark_step d id)
unfolding mark_step write_raw
mark_step-IsStored d id h = ground (arith, h)

all_steps : (s : OnboardingState) → OnboardingState
all_steps s = record s { steps = record { tried = true; viewed = true; saved = true } }

load-mark_all : (d : Device) → IsStored d → load_state (mark_all d) ≡ all_steps (load_state d)
unfolding mark_all all_steps
load-mark_all d h =
    let d1 = mark_step d StepId.tried in
    let h1 = mark_step-IsStored d StepId.tried h in
    let d2 = mark_step d1 StepId.viewed in
    let h2 = mark_step-IsStored d1 StepId.viewed h1 in
    ground (
      arith,
      ((load-operations d h).0 StepId.tried).0,
      ((load-operations d1 h1).0 StepId.viewed).0,
      ((load-operations d2 h2).0 StepId.saved).0,
    )

complete-mark_all : (d : Device) → IsStored d → is_complete (load_state (mark_all d)) ≡ true
unfolding is_complete all_steps
complete-mark_all d h = rw (load-mark_all d h) refl

abbrev pub newest_variant : Store → Option ToastVariant
newest_variant s = Option.map (λ (t : Toast). t.variant) (head? s.toasts)

-- Where the page stores what it writes, a recording that is matched is found in the log by the id that
-- the server gave it, without its waveform if the storage refuses the list with it; the checklist is
-- complete, the page shows the response and a success, and it is idle again without an error.
pub on_audio_end-stores :
    (number_text score_text : ℕ → Text) (fits : List StoredMatch → Bool) (now : ℕ)
    → (rec : Recording) (j : MatchResponse) (pitch : Option PitchContour) (p : HomePage)
    → p.browser.window ≡ true
    → IsStored p.checklist
    → fits (map drop_waveform (latest p.browser (stored_match now rec j pitch))) ≡ true
    → let m = stored_match now rec j pitch in
      let p' =
        on_audio_end number_text score_text fits now rec j pitch
          (on_audio_matched j (on_audio_begin p)) in
      (get_match p'.browser j.query_id
        ≡ some (if fits (latest p.browser m) then m else drop_waveform m))
      × (is_complete (load_state p'.checklist) ≡ true)
      × (p'.last ≡ some j)
      × (newest_variant p'.toasts ≡ some success)
      × (p'.loading ≡ false)
      × (p'.err ≡ none)
unfolding on_audio_end on_audio_matched on_audio_begin stored_match toast show_toast emit new_toast
on_audio_end-stores number_text score_text fits now rec j pitch p w h k = (
  get-save_match fits p.browser (stored_match now rec j pitch) w k,
  complete-mark_all p.checklist h,
  refl,
  refl,
  refl,
  refl,
)
