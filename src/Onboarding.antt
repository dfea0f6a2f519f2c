-- ===== src/Onboarding.antt =====
-- web/lib/onboarding.ts: the first-run checklist.
-- `Device` holds whether there is a window, the localStorage entry, whether storage can be written
-- (`setItem` throws where it cannot, and the code ignores that), and the events dispatched.
pub mod Laws
use clawhum.Prelude.{
  ℕ, suc, ◌+◌, Bool, true, false, not, ◌&&◌, ◌||◌, Option, none, some, List, [], ◌∷◌, if◌then◌else◌,
  all, or_else, bool_eq,
}
use clawhum.Prelude.Text.{codes}
use clawhum.Json.{
  Json, bool, obj, end, field, get, truthy, is_object, Cell, absent, malformed, parsed,
}

pub data StepId : Type 0 where
  tried viewed saved : StepId

pub record Steps : Type 0 where
  pub tried : Bool
  pub viewed : Bool
  pub saved : Bool

pub record OnboardingState : Type 0 where
  pub dismissed : Bool
  pub hidden : Bool
  pub steps : Steps

pub record Device : Type 0 where
  pub window : Bool
  pub cell : Cell
  pub writable : Bool
  pub events : ℕ

abbrev pub step_order : List StepId
step_order = StepId.tried ∷ StepId.viewed ∷ StepId.saved ∷ []

abbrev pub empty_state : OnboardingState
empty_state = record {
  dismissed = false;
  hidden = false;
  steps = record { tried = false; viewed = false; saved = false };
}

-- `s.steps[id]`
abbrev pub step_of : Steps → StepId → Bool
step_of s StepId.tried = s.tried
step_of s StepId.viewed = s.viewed
step_of s StepId.saved = s.saved

abbrev pub set_step : Steps → StepId → Bool → Steps
set_step s StepId.tried b = record s { tried = b }
set_step s StepId.viewed b = record s { viewed = b }
set_step s StepId.saved b = record s { saved = b }

abbrev pub object_or_empty : Option Json → Option Json
object_or_empty v = if is_object v then v else some (obj end)

unfoldable pub normalise : Json → OnboardingState
unfolding get truthy is_object
normalise v =
    let steps = object_or_empty (get (some v) (codes "steps")) in
    if not (is_object (some v)) then empty_state else record {
      dismissed = truthy (get (some v) (codes "dismissed"));
      hidden = truthy (get (some v) (codes "hidden"));
      steps = record {
        tried = truthy (get steps (codes "tried"));
        viewed = truthy (get steps (codes "viewed"));
        saved = truthy (get steps (codes "saved"));
      };
    }

-- What `JSON.stringify` writes.
unfoldable pub state_json : OnboardingState → Json
state_json s = obj (
    field (codes "dismissed") (bool s.dismissed) (
      field (codes "hidden") (bool s.hidden) (
        field (codes "steps")
          (obj (
            field (codes "tried") (bool s.steps.tried) (
              field (codes "viewed") (bool s.steps.viewed)
                (field (codes "saved") (bool s.steps.saved) end))))
          end)))

unfoldable pub is_complete : OnboardingState → Bool
is_complete s = all (step_of s.steps) step_order

-- The `reduce` over the steps.
unfoldable pub count_steps : Steps → ℕ → List StepId → ℕ
count_steps s n [] = n
count_steps s n (k ∷ ks) = count_steps s (n + (if step_of s k then 1 else 0)) ks

unfoldable pub completed_count : OnboardingState → ℕ
unfolding count_steps
completed_count s = count_steps s.steps 0 step_order

unfoldable pub with_step : OnboardingState → StepId → Bool → OnboardingState
with_step s id value =
    if bool_eq (step_of s.steps id) value then s else record s { steps = set_step s.steps id value }

unfoldable pub with_dismissed : OnboardingState → Bool → OnboardingState
with_dismissed s d = if bool_eq s.dismissed d then s else record s { dismissed = d }

unfoldable pub with_hidden : OnboardingState → Bool → OnboardingState
with_hidden s h = if bool_eq s.hidden h then s else record s { hidden = h }

abbrev pub read_cell : Cell → Option OnboardingState
read_cell absent = none
read_cell malformed = none
read_cell (parsed v) = some (normalise v)

unfoldable pub read_raw : Device → Option OnboardingState
read_raw d = if not d.window then none else read_cell d.cell

unfoldable pub write_raw : Device → OnboardingState → Device
write_raw d s =
    if not d.window || not d.writable
    then d
    else record d { cell = parsed (state_json s); events = suc d.events }

unfoldable pub load_state : Device → OnboardingState
load_state d = or_else (read_raw d) empty_state

unfoldable pub is_first_run : Device → Bool
is_first_run d = elim (read_raw d) [ none ↦ true | some _ ↦ false ]

unfoldable pub mark_step : Device → StepId → Device
mark_step d id = write_raw d (with_step (load_state d) id true)

unfoldable pub dismiss : Device → Device
dismiss d = write_raw d (with_dismissed (load_state d) true)

unfoldable pub hide : Device → Device
hide d = write_raw d (with_hidden (load_state d) true)

unfoldable pub reset : Device → Device
reset d = write_raw d empty_state
