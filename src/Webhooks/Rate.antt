-- ===== src/Webhooks/Rate.antt =====
-- `DeliveryRateCard` of web/app/webhooks/page.tsx, the cap on the deliveries of a webhook.
-- `parse` is `Number.parseInt(_, 10)`. The timer of the mark `saved` is not modelled.
pub mod Bounds
use clawhum.Prelude.{
  ℕ, ◌≤◌, Bool, true, false, Option, none, some, ◌++◌, if◌then◌else◌, ltb, ◌≡◌, refl, arith,
}
use clawhum.Prelude.Text.{Text, codes}

pub record DeliveryRateState : Type 0 where
  pub max_per_minute : ℕ
  pub ceiling : ℕ
  pub active_hook_count : ℕ
  pub updated_at : ℕ
  pub updated_by : Text

-- The state `state` of the card: the policy, or the `{}` that stands for a body that could not be read,
-- with every field undefined.
pub data CardState : Type 0 where
  policy : DeliveryRateState → CardState
  no_fields : CardState

pub record RateCard : Type 0 where
  pub state : Option CardState
  pub draft : Text
  pub err : Option Text
  pub busy : Bool
  pub saved : Bool

pub data ParsedInt : Type 0 where
  not_finite negative : ParsedInt
  natural : ℕ → ParsedInt

-- How a request ends: it throws, it has a status that is not ok and a text that the code shows of it, if
-- any, it is ok with a body that cannot be read, or the body is the policy.
pub data RateAnswer : Type 0 where
  threw : Text → RateAnswer
  refused : ℕ → Option Text → RateAnswer
  unreadable : Text → RateAnswer
  replied : DeliveryRateState → RateAnswer

module _ (number_text : ℕ → Text) (parse : Text → ParsedInt) where
  unfoldable pub load_begin : RateCard → RateCard
  load_begin c = record c { err = none }

  unfoldable pub load_end : RateAnswer → RateCard → RateCard
  load_end (threw m) c = record c { err = some m }
  load_end (refused status _) c = record c { err = some (codes "http " ++ number_text status) }
  load_end (unreadable m) c = record c { err = some m }
  load_end (replied s) c = record c {
    state = some (policy s);
    draft = number_text s.max_per_minute;
  }

  abbrev pub stop_save : Text → RateCard → RateCard × Option ℕ
  stop_save m c = (record c { err = some m }, none)

  abbrev pub send : ℕ → RateCard → RateCard × Option ℕ
  send n c = (record c { busy = true; err = none }, some n)

  -- `n > state.ceiling`, which is false where the ceiling is undefined.
  abbrev pub is_above : CardState → ℕ → Bool
  is_above (policy s) n = ltb s.ceiling n
  is_above no_fields n = false

  abbrev pub ceiling_text : CardState → Text
  ceiling_text (policy s) = number_text s.ceiling
  ceiling_text no_fields = codes "undefined"

  -- `save` up to its request, for the state of the card and the number of the draft, with the cap that it
  -- sends, if it sends one.
  abbrev pub save_parsed : Option CardState → ParsedInt → RateCard → RateCard × Option ℕ
  save_parsed none r c = (c, none)
  save_parsed (some s) not_finite c = stop_save (codes "enter a non-negative integer") c
  save_parsed (some s) negative c = stop_save (codes "enter a non-negative integer") c
  save_parsed (some s) (natural n) c =
      if is_above s n then stop_save (codes "max is " ++ ceiling_text s) c else send n c

  unfoldable pub save_begin : RateCard → RateCard × Option ℕ
  save_begin c = save_parsed c.state (parse c.draft) c

  abbrev pub text_or_status : ℕ → Option Text → Text
  text_or_status status none = codes "http " ++ number_text status
  text_or_status status (some t) = t

  unfoldable pub save_end : RateAnswer → RateCard → RateCard
  save_end (threw m) c = record c { err = some m; busy = false }
  save_end (refused status t) c = record c { err = some (text_or_status status t); busy = false }
  save_end (unreadable m) c = record c {
    state = some no_fields;
    draft = codes "undefined";
    saved = true;
    busy = false;
  }
  save_end (replied s) c = record c {
    state = some (policy s);
    draft = number_text s.max_per_minute;
    saved = true;
    busy = false;
  }
