-- ===== src/Tests/Shares.antt =====
-- The list of shares of web/app/shares/page.tsx on concrete inputs.
use mathlib.Core.Option
use clawhum.Prelude.{
  ℕ, ◌-◌, ◌&&◌, true, false, none, some, [], ◌∷◌, length, if◌then◌else◌, ◌≡◌, refl,
}
use clawhum.Prelude.Text.{Text, codes, text_eq, lower, trim, includes, join}
use clawhum.Toast.{success, error}
use clawhum.Shares.{
  ShareItem, SharesPage, ShareAnswer, replied, warn, fmt_expiry, filtered, save_note_begin,
  save_note_end, revoke_end,
}
use clawhum.Shares.Expiry.{tone_at, tone-fmt_expiry}
use clawhum.Shares.Changes.{
  find_share, noted, listed, total_in, newest_variant, is_replied, save_note_end-outcome,
  revoke_end-outcome,
}

abbrev number_text : ℕ → Text
number_text n = codes "3"

abbrev hum : ShareItem
hum = record {
  id = codes "s1";
  created_at = 5;
  query_id = codes "q1";
  elapsed_ms = 40;
  count = 0;
  filename = some (codes "Hum.wav");
  duration_sec = none;
  note = some [];
  top_title = none;
  top_artist = none;
  top_score = none;
  url_path = codes "/r/s1";
  expires_at = 0;
  expired = false;
}

abbrev page : SharesPage
page = record {
  data_ =
      some
        (record { shares = hum ∷ record hum { id = codes "s2"; filename = none } ∷ []; total = 2 });
  loading = false;
  err = none;
  q = codes " WAV s";
  busy_id = none;
  editing_id = some (codes "s1");
  note_draft = codes "mine";
  saving_id = some (codes "s1");
  toasts = record { counter = 0; toasts = []; listeners = []; delivered = [] };
}

-- The text that is searched joins the fields that are there.
search_joins : filtered page ≡ []
unfolding filtered lower trim includes join
search_joins = refl

search_finds : length (filtered (record page { q = codes "wav Q1" })) ≡ 1
unfolding filtered lower trim includes join
search_finds = refl

abbrev answer : ShareAnswer ShareItem
answer = replied (record hum { note = some (save_note_begin (codes "s1") page).1 })

save_note_end-outcome_example :
    let p' = save_note_end 9 (codes "s1") answer page in
    ((key : Text)
      → find_share key p' ≡ Option.map (noted (codes "s1") answer) (find_share key page))
    × (total_in p'.data_ ≡ total_in page.data_)
    × (length (listed p'.data_) ≡ length (listed page.data_))
    × (p'.saving_id ≡ none)
    × (p'.editing_id ≡ (if is_replied answer then none else page.editing_id))
    × (newest_variant p'.toasts ≡ some (if is_replied answer then success else error))
save_note_end-outcome_example = save_note_end-outcome 9 (codes "s1") answer page

abbrev granted : ShareAnswer (Unit {0})
granted = replied tt

revoke_end-outcome_example :
    let p' = revoke_end 9 (codes "s2") granted page in
    ((key : Text)
      → find_share key p'
        ≡ (if is_replied granted && text_eq (codes "s2") key then none else find_share key page))
    × (total_in p'.data_ ≡ (
        if is_replied granted
        then Option.map (λ n. n - 1) (total_in page.data_)
        else total_in page.data_))
    × (p'.loading ≡ (if is_replied granted then true else page.loading))
    × (p'.err ≡ (if is_replied granted then none else page.err))
    × (p'.busy_id ≡ none)
    × (newest_variant p'.toasts ≡ some (if is_replied granted then success else error))
revoke_end-outcome_example = revoke_end-outcome 9 (codes "s2") granted page

tone-fmt_expiry_example :
    (fmt_expiry number_text 1000 259200 false).tone ≡ tone_at 1000 259200 false
tone-fmt_expiry_example = tone-fmt_expiry number_text 1000 259200 false

three_days_warn : (fmt_expiry number_text 1000 259200 false).tone ≡ warn
unfolding fmt_expiry
three_days_warn = refl
