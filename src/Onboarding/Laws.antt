-- ===== src/Onboarding/Laws.antt =====
-- What the operations of web/lib/onboarding.ts leave on a device that stores them.
use clawhum.Prelude.{◌≤◌, Bool, true, false, ◌==◌, ◌≡◌, refl, ◌∙◌, arith}
use clawhum.Prelude.Text.{text_eq}
use clawhum.Onboarding.{
  StepId, OnboardingState, Device, set_step, empty_state, normalise, state_json, is_complete,
  completed_count, with_step, with_dismissed, with_hidden, read_raw, write_raw, load_state,
  is_first_run, mark_step, dismiss, hide, reset,
}

normalise-state_json : (s : OnboardingState) → normalise (state_json s) ≡ s
unfolding normalise state_json text_eq
normalise-state_json s = refl

abbrev pub IsStored : Device → Type 0
IsStored d = (d.window ≡ true) × (d.writable ≡ true)

-- What is written is what is read next, and ends the first run.
load-write_raw :
    (d : Device) (s : OnboardingState)
    → IsStored d
    → (load_state (write_raw d s) ≡ s)
      × (is_first_run (write_raw d s) ≡ false)
      × IsStored (write_raw d s)
unfolding write_raw load_state read_raw is_first_run
load-write_raw d s (w, k) = ground (arith, normalise-state_json s)

with_step-step :
    (s : OnboardingState) (id : StepId) → (with_step s id true).steps ≡ set_step s.steps id true
unfolding with_step
with_step-step s StepId.tried = ground arith
with_step-step s StepId.viewed = ground arith
with_step-step s StepId.saved = ground arith

with_step-rest :
    (s : OnboardingState) (id : StepId) (b : Bool)
    → ((with_step s id b).dismissed ≡ s.dismissed) × ((with_step s id b).hidden ≡ s.hidden)
unfolding with_step
with_step-rest s id b = ground arith

-- On a device that stores the state, marking a step sets that step, leaves the other steps and
-- flags as they were, and ends the first run; dismissing and hiding set their flag alone; a reset
-- gives the empty state.
pub load-operations :
    (d : Device)
    → IsStored d
    → ((id : StepId)
        → (load_state (mark_step d id)
            ≡ record (load_state d) { steps = set_step (load_state d).steps id true })
          × (is_first_run (mark_step d id) ≡ false))
      × (load_state (dismiss d) ≡ record (load_state d) { dismissed = true })
      × (load_state (hide d) ≡ record (load_state d) { hidden = true })
      × (load_state (reset d) ≡ empty_state)
unfolding mark_step dismiss hide reset with_dismissed with_hidden
load-operations d h = (
  (λ id. (
    (load-write_raw d (with_step (load_state d) id true) h).0
        ∙ ground (arith, with_step-step (load_state d) id, with_step-rest (load_state d) id true),
    (load-write_raw d (with_step (load_state d) id true) h).1,
  )),
  (load-write_raw d _ h).0 ∙ ground arith,
  (load-write_raw d _ h).0 ∙ ground arith,
  (load-write_raw d empty_state h).0,
)

-- The checklist is complete exactly when all three steps are counted, and never counts more.
pub is_complete-completed_count :
    (s : OnboardingState) → (is_complete s ≡ (completed_count s == 3)) × (completed_count s ≤ 3)
unfolding is_complete completed_count
is_complete-completed_count s = ground arith
