-- ===== src/Webhooks/Actions.antt =====
-- The actions on a webhook of web/app/webhooks/page.tsx: setPaused, sendTest, redeliver and
-- rotateSecret.
use clawhum.Prelude.{
  ℕ, ◌*◌, Bool, true, false, Option, none, some, List, [], ◌∷◌, ◌++◌, if◌then◌else◌, take,
}
use clawhum.Prelude.Text.{Text, codes}
use clawhum.Webhooks.{
  WebhookItem, RotateResponse, DeliveryItem, ok_msg, err_msg, WebhooksPage, HookAnswer, threw,
  refused, replied, is_id, open_begin, open_end, reload_begin, reload_end, detail_or, with_text,
}

-- `delivery_id?.slice(0, 8) || "ok"`
abbrev pub short_id : Option Text → Text
short_id none = codes "ok"
short_id (some []) = codes "ok"
short_id (some (c ∷ s)) = take 8 (c ∷ s)

abbrev pub verb : Bool → Text
verb true = codes "pause"
verb false = codes "resume"

abbrev pub action_begin : Text → WebhooksPage → WebhooksPage
action_begin tag p = record p { action_busy = some tag; action_msg = none }

abbrev pub pause_tag : Bool → Text → Text
pause_tag paused id = verb paused ++ (codes ":" ++ id)

unfoldable pub set_paused_begin : Text → Bool → WebhooksPage → WebhooksPage
set_paused_begin id paused p = action_begin (pause_tag paused id) p

unfoldable pub send_test_begin : Text → WebhooksPage → WebhooksPage
send_test_begin id p = action_begin (codes "test:" ++ id) p

unfoldable pub redeliver_begin : Text → WebhooksPage → WebhooksPage
redeliver_begin delivery_id p = action_begin (codes "re:" ++ delivery_id) p

-- `rotateSecret` up to its request, with the grace in seconds that it sends; `rotate_grace` is in whole
-- minutes.
unfoldable pub rotate_begin : Text → WebhooksPage → WebhooksPage × ℕ
rotate_begin id p = (action_begin (codes "rot:" ++ id) p, p.rotate_grace * 60)

-- The timer of `sendTest` and `redeliver`.
unfoldable pub clear_message : WebhooksPage → WebhooksPage
clear_message p = record p { action_msg = none }

abbrev pub release : Text → Option Text → Option Text
release tag busy = if is_id busy tag then none else busy

module _ (number_text : ℕ → Text) where
  abbrev pub action_failed : Text → Text → WebhooksPage → WebhooksPage
  action_failed what m p = record p {
    action_msg = some (err_msg (what ++ (codes " failed: " ++ m)));
    action_busy = none;
  }

  abbrev pub pause_failed : Text → Bool → Text → WebhooksPage → WebhooksPage
  pause_failed id paused m p = record p {
    action_msg = some (err_msg (verb paused ++ (codes " failed: " ++ m)));
    action_busy = release (pause_tag paused id) p.action_busy;
  }

  unfoldable pub set_paused_end : Text → Bool → HookAnswer (Unit {0}) → WebhooksPage → WebhooksPage
  unfolding reload_begin
  set_paused_end id paused (threw m) p = pause_failed id paused m p
  set_paused_end id paused (refused status t) p =
      pause_failed id paused (with_text number_text status t) p
  set_paused_end id paused (replied _) p = reload_begin (record p {
    action_msg = some (
        ok_msg (
          if paused
          then codes "webhook paused. deliveries are suspended until you resume it."
          else codes "webhook resumed. deliveries will fire on the next matching event."));
  })

  unfoldable pub set_paused_done :
      Text → Bool → HookAnswer (List WebhookItem) → WebhooksPage → WebhooksPage
  unfolding reload_end
  set_paused_done id paused answer p =
      let p' = reload_end number_text answer p in
      record p' { action_busy = release (pause_tag paused id) p'.action_busy }

  -- `sendTest` and `redeliver` answer with the id of a delivery.
  unfoldable pub send_test_end : Text → HookAnswer (Option Text) → WebhooksPage → WebhooksPage
  unfolding open_begin
  send_test_end id (threw m) p = action_failed (codes "test") m p
  send_test_end id (refused status d) p =
      action_failed (codes "test") (detail_or number_text status d) p
  send_test_end id (replied delivery) p = open_begin id (record p {
    action_msg = some (ok_msg (codes "test ping delivered (" ++ (short_id delivery ++ codes ")")));
  })

  unfoldable pub redeliver_end : Text → HookAnswer (Option Text) → WebhooksPage → WebhooksPage
  unfolding open_begin
  redeliver_end hook_id (threw m) p = action_failed (codes "redeliver") m p
  redeliver_end hook_id (refused status d) p =
      action_failed (codes "redeliver") (detail_or number_text status d) p
  redeliver_end hook_id (replied delivery) p = open_begin hook_id (record p {
    action_msg = some (ok_msg (codes "redelivered (" ++ (short_id delivery ++ codes ")")));
  })

  -- The end of `sendTest` and of `redeliver`, behind `openDeliveries`.
  unfoldable pub delivery_done : HookAnswer (List DeliveryItem) → WebhooksPage → WebhooksPage
  unfolding open_end
  delivery_done answer p = record (open_end number_text answer p) { action_busy = none }

  unfoldable pub rotate_end :
      Text → HookAnswer (Option RotateResponse) → WebhooksPage → WebhooksPage
  unfolding reload_begin
  rotate_end url (threw m) p = action_failed (codes "rotate") m p
  rotate_end url (refused status d) p =
      action_failed (codes "rotate") (detail_or number_text status d) p
  rotate_end url (replied j) p =
      reload_begin (record p { rotated = some (url, j); rotate_for = none })

  unfoldable pub rotate_done : HookAnswer (List WebhookItem) → WebhooksPage → WebhooksPage
  unfolding reload_end
  rotate_done answer p = record (reload_end number_text answer p) { action_busy = none }
