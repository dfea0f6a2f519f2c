-- ===== src/Webhooks/Failures.antt =====
-- What a failed request leaves on the page of web/app/webhooks/page.tsx.
use clawhum.Prelude.{◌∷◌, take, ℕ, Option, none, some, List, [], ◌++◌, ◌≡◌}
use clawhum.Prelude.Text.{Text, codes}
use clawhum.Webhooks.{
  WebhookItem, DeliveryItem, CreateResponse, RotateResponse, err_msg, WebhooksPage, HookAnswer,
  threw, refused,
}

pub data Failure : Type 0 where
  thrown : Text → Failure
  status_of : ℕ → Option Text → Failure

abbrev pub failed {ℓ} : {A : Type ℓ} → Failure → HookAnswer A
failed (thrown m) = threw m
failed (status_of status t) = refused status t

-- The message of a failure: what was thrown, or the detail of the refusal, or its status. An error with
-- an empty detail is shown by its name.
abbrev pub detail_message : (ℕ → Text) → Failure → Text
detail_message number_text (thrown m) = m
detail_message number_text (status_of status none) = codes "http " ++ number_text status
detail_message number_text (status_of status (some [])) = codes "Error"
detail_message number_text (status_of status (some (c ∷ d))) = c ∷ d

-- The same with the status only, and with the status and the start of the answer's text.
abbrev pub status_message : (ℕ → Text) → Failure → Text
status_message number_text (thrown m) = m
status_message number_text (status_of status t) = codes "http " ++ number_text status

abbrev pub text_message : (ℕ → Text) → Failure → Text
text_message number_text (thrown m) = m
text_message number_text (status_of status none) = codes "http " ++ number_text status
text_message number_text (status_of status (some [])) = codes "http " ++ number_text status
text_message number_text (status_of status (some (c ∷ t))) =
    codes "http " ++ (number_text status ++ (codes ": " ++ take 200 (c ∷ t)))

-- What the page shows of the server's data, and what the user has entered or chosen.
pub record Shown : Type 0 where
  pub items : Option (List WebhookItem)
  pub draft_url : Text
  pub revealed_secret : Option CreateResponse
  pub selected : Option Text
  pub deliveries : Option (List DeliveryItem)
  pub rotate_for : Option Text
  pub rotated : Option (Text × Option RotateResponse)

abbrev pub shown : WebhooksPage → Shown
shown p = record {
  items = p.items;
  draft_url = p.draft_url;
  revealed_secret = p.revealed_secret;
  selected = p.selected;
  deliveries = p.deliveries;
  rotate_for = p.rotate_for;
  rotated = p.rotated;
}

-- An action that has failed: all that is shown stays, no action is busy, and the message is an error.
abbrev pub HasFailed : Text → WebhooksPage → WebhooksPage → Type 0
HasFailed text p p' =
    (shown p' ≡ shown p) × (p'.action_busy ≡ none) × (p'.action_msg ≡ some (err_msg text))

-- A fetch that has failed: its list is empty, with the error, and the rest of what is shown stays.
abbrev pub HasNoItems : Text → WebhooksPage → WebhooksPage → Type 0
HasNoItems text p p' = (shown p' ≡ record (shown p) { items = some [] }) × (p'.load_err ≡ some text)

abbrev pub HasNoDeliveries : Text → Text → WebhooksPage → WebhooksPage → Type 0
HasNoDeliveries id text p p' =
    (shown p' ≡ record (shown p) { selected = some id; deliveries = some [] })
    × (p'.deliv_err ≡ some text)
