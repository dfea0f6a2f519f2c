-- ===== src/Webhooks.antt =====
-- web/app/webhooks/page.tsx: the webhooks of a workspace and their deliveries.
-- Each handler is split at its request and at the fetch that it waits for behind it. `number_text` is
-- `String` of a number. The clipboard and the timers of its marks are not modelled.
pub mod Rate
pub mod Actions
pub mod Failures
use clawhum.Prelude.{
  ℕ, ◌*◌, Bool, true, false, Option, none, some, List, [], ◌∷◌, ◌++◌, if◌then◌else◌, take,
}
use clawhum.Prelude.Text.{Text, codes, text_eq}

pub record WebhookItem : Type 0 where
  pub id : Text
  pub url : Text
  pub events : List Text
  pub created_at : ℕ
  pub active : Bool
  pub secret_hint : Text
  pub previous_secret_hint : Option Text
  pub previous_secret_expires_at : Option ℕ
  pub rotated_at : Option ℕ
  pub paused_at : Option ℕ
  pub resumed_at : Option ℕ
  pub auto_disabled_at : Option ℕ
  pub auto_disabled_reason : Option Text
  pub consecutive_failures : Option ℕ

pub record RotateResponse : Type 0 where
  pub id : Text
  pub secret : Text
  pub previous_secret_expires_at : Option ℕ
  pub rotated_at : ℕ

pub record CreateResponse : Type 0 where
  pub id : Text
  pub url : Text
  pub events : List Text
  pub secret : Text
  pub created_at : ℕ

pub record DeliveryItem : Type 0 where
  pub id : Text
  pub webhook_id : Text
  pub event : Text
  pub attempt : ℕ
  pub status : ℕ
  pub ok : Bool
  pub elapsed_ms : ℕ
  pub error : Option Text
  pub created_at : ℕ
  pub redelivery_of : Option Text
  pub replayable : Option Bool

-- `actionMsg`, by its kind.
pub data ActionMsg : Type 0 where
  ok_msg err_msg : Text → ActionMsg

-- The response in `rotated` is `none` where the body of an ok answer could not be read and `{}` stands
-- for it.
pub record WebhooksPage : Type 0 where
  pub items : Option (List WebhookItem)
  pub load_err : Option Text
  pub busy : Bool
  pub draft_url : Text
  pub create_err : Option Text
  pub revealed_secret : Option CreateResponse
  pub selected : Option Text
  pub deliveries : Option (List DeliveryItem)
  pub deliv_err : Option Text
  pub action_busy : Option Text
  pub action_msg : Option ActionMsg
  pub rotate_for : Option Text
  pub rotate_grace : ℕ
  pub rotated : Option (Text × Option RotateResponse)

-- How a request ends: it throws, with the text that the code shows of what is thrown; it has a status
-- that is not ok, and a text that the code reads of the answer, if any; or the body is read.
pub data HookAnswer {ℓ} (A : Type ℓ) : Type ℓ where
  threw : Text → HookAnswer A
  refused : ℕ → Option Text → HookAnswer A
  replied : A → HookAnswer A

abbrev pub is_id : Option Text → Text → Bool
is_id none id = false
is_id (some t) id = text_eq t id

-- `openDeliveries` up to its request.
unfoldable pub open_begin : Text → WebhooksPage → WebhooksPage
open_begin id p = record p { selected = some id; deliveries = none; deliv_err = none }

unfoldable pub reload_begin : WebhooksPage → WebhooksPage
reload_begin p = record p { load_err = none }

unfoldable pub create_begin : WebhooksPage → WebhooksPage × Text
create_begin p = (record p { busy = true; create_err = none }, p.draft_url)

unfoldable pub remove_begin : Bool → WebhooksPage → Option WebhooksPage
remove_begin confirmed p = if confirmed then some (record p { busy = true }) else none

module _ (number_text : ℕ → Text) where
  -- What is shown of an error, where `detail` is a text or not; `String` of an error without a message
  -- is its name.
  abbrev pub http : ℕ → Text
  http status = codes "http " ++ number_text status

  abbrev pub detail_or : ℕ → Option Text → Text
  detail_or status none = http status
  detail_or status (some []) = codes "Error"
  detail_or status (some (c ∷ d)) = c ∷ d

  abbrev pub with_text : ℕ → Option Text → Text
  with_text status none = http status
  with_text status (some []) = http status
  with_text status (some (c ∷ s)) = http status ++ (codes ": " ++ take 200 (c ∷ s))

  unfoldable pub reload_end : HookAnswer (List WebhookItem) → WebhooksPage → WebhooksPage
  reload_end (threw m) p = record p { load_err = some m; items = some [] }
  reload_end (refused status _) p = record p { load_err = some (http status); items = some [] }
  reload_end (replied hooks) p = record p { items = some hooks }

  unfoldable pub open_end : HookAnswer (List DeliveryItem) → WebhooksPage → WebhooksPage
  open_end (threw m) p = record p { deliv_err = some m; deliveries = some [] }
  open_end (refused status _) p = record p { deliv_err = some (http status); deliveries = some [] }
  open_end (replied ds) p = record p { deliveries = some ds }

  -- `create` from its answer up to the end of `reload`, and the rest.
  unfoldable pub create_end : HookAnswer CreateResponse → WebhooksPage → WebhooksPage
  unfolding reload_begin
  create_end (threw m) p = record p { create_err = some m; busy = false }
  create_end (refused status d) p = record p {
    create_err = some (detail_or status d);
    busy = false;
  }
  create_end (replied j) p = reload_begin (record p { revealed_secret = some j; draft_url = [] })

  unfoldable pub create_done : HookAnswer (List WebhookItem) → WebhooksPage → WebhooksPage
  unfolding reload_end
  create_done answer p = record (reload_end answer p) { busy = false }

  abbrev pub delete_failed : Text → WebhooksPage → WebhooksPage × Option Text
  delete_failed m p = (record p { busy = false }, some (codes "delete failed: " ++ m))

  -- `remove` of `id` from its answer on, where `was` is the selection when it was called, with the
  -- text of the alert.
  unfoldable pub remove_end :
      Text → Option Text → HookAnswer (Unit {0}) → WebhooksPage → WebhooksPage × Option Text
  unfolding reload_begin
  remove_end id was (threw m) p = delete_failed m p
  remove_end id was (refused status _) p = delete_failed (http status) p
  remove_end id was (replied _) p = (
    reload_begin (if is_id was id then record p { selected = none; deliveries = none } else p),
    none,
  )

  unfoldable pub remove_done : HookAnswer (List WebhookItem) → WebhooksPage → WebhooksPage
  unfolding reload_end
  remove_done answer p = record (reload_end answer p) { busy = false }
