-- ===== src/Tests/Webhooks.antt =====
-- The webhooks of web/app/webhooks/page.tsx on concrete inputs.
use clawhum.Prelude.{ℕ, false, true, none, some, [], ◌∷◌, ◌≡◌, refl}
use clawhum.Prelude.Text.{Text, codes}
use clawhum.Webhooks.{DeliveryItem, WebhooksPage, replied, open_begin, open_end}
use clawhum.Webhooks.Failures.{Failure, status_of}
use clawhum.Webhooks.Rate
use clawhum.Webhooks.Rate.{RateCard, RateAnswer, ParsedInt, natural, save_begin, save_end}
use clawhum.Webhooks.Rate.Bounds.{IsWithin, IsAnswered, save-bounds}

abbrev number_text : ℕ → Text
number_text n = codes "503"

abbrev page : WebhooksPage
page = record {
  items = some [];
  load_err = none;
  busy = false;
  draft_url = codes "https://hook.app";
  create_err = none;
  revealed_secret = none;
  selected = some (codes "w1");
  deliveries = none;
  deliv_err = none;
  action_busy = none;
  action_msg = none;
  rotate_for = some (codes "w1");
  rotate_grace = 60;
  rotated = none;
}

abbrev failure : Failure
failure = status_of 503 (some (codes "down"))

abbrev delivery : DeliveryItem
delivery = record {
  id = codes "d1";
  webhook_id = codes "w1";
  event = codes "match.completed";
  attempt = 1;
  status = 200;
  ok = true;
  elapsed_ms = 9;
  error = none;
  created_at = 4;
  redelivery_of = none;
  replayable = none;
}

-- The deliveries of a webhook arrive after those of another have been opened.
overtaken :
    let p' =
      open_end number_text
        (replied (delivery ∷ []))
        (open_begin (codes "w2") (open_begin (codes "w1") page)) in
    (p'.selected ≡ some (codes "w2")) × (p'.deliveries ≡ some (delivery ∷ []))
unfolding open_begin open_end
overtaken = (refl, refl)

abbrev card : RateCard
card = record {
  state = some (
      Rate.policy (record {
        max_per_minute = 10;
        ceiling = 600;
        active_hook_count = 1;
        updated_at = 0;
        updated_by = [];
      }));
  draft = codes "503";
  err = none;
  busy = false;
  saved = false;
}

abbrev parse : Text → ParsedInt
parse t = natural 503

abbrev sending : RateCard
sending = record card { busy = true; err = none }

abbrev answer : RateAnswer
answer = Rate.refused 403 none

save-bounds_example :
    (parse card.draft ≡ natural 503)
    × IsWithin card.state 503
    × (sending ≡ record card { busy = true; err = none })
    × IsAnswered number_text answer sending (save_end number_text parse answer sending)
unfolding save_begin
save-bounds_example = save-bounds number_text parse card sending sending 503 answer refl

-- Behind an ok answer that cannot be read, a cap is sent that is above the ceiling of before.
unbounded :
    let blank = save_end number_text parse (Rate.unreadable (codes "no json")) sending in
    save_begin number_text (λ t. natural 601) blank
    ≡ (record blank { busy = true; err = none }, some 601)
unfolding save_begin save_end
unbounded = refl
