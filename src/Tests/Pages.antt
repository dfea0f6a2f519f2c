-- ===== src/Tests/Pages.antt =====
-- The saved views and the insights totals on concrete inputs.
use clawhum.Prelude.{
  map, ◌++◌, ◌-◌, ◌*◌, ◌/◌, ◌+◌, ltb, if◌then◌else◌, ℕ, true, false, none, some, List, [], ◌∷◌,
  length, replicate, ◌≡◌, ◌≢◌, refl, arith,
}
use clawhum.Prelude.Text.{Text, codes, text_eq, trim}
use clawhum.Model.{MatchResult, StoredMatch}
use clawhum.SavedViews.{
  ViewFilters, ViewItem, top_score, recent, Panel, done, listed, sent_filters, active_view,
  can_save, save, summarize,
}
use clawhum.SavedViews.Active.{can_save-save}
use clawhum.Prelude.Sort.{sort_by}
use clawhum.Insights.{add_matches, no_totals}
use clawhum.Insights.Days.{
  day_points, add_days, add_to_day, points_of, points_from, point_at, last_ts, count_in_day,
}
use clawhum.Insights.Sums.{IsTotal, result_count, add_matches-IsTotal}

abbrev jazz : ViewFilters
jazz = record { q = codes " blue"; tag = codes "Jazz"; sort = top_score; starred = false }

abbrev plain : ViewFilters
plain = record { q = []; tag = []; sort = recent; starred = true }

jazz_summary : summarize jazz ≡ codes "\"blue\" / #Jazz / top score"
unfolding summarize
jazz_summary = refl

abbrev view : Text → ViewFilters → ViewItem
view id f = record { id = id; name = codes "v"; filters = f; created_at = 1; updated_at = 1 }

abbrev panel : Panel
panel = record {
  views = some [];
  err = some (codes "save failed");
  busy = false;
  naming = true;
  draft = codes " late";
  renaming_id = none;
  rename_draft = [];
}

abbrev number_text : ℕ → Text
number_text n = replicate n b'1'

abbrev saved : Panel
saved =
    save number_text true done
      (listed (some (view (codes "v1") plain ∷ view (codes "v2") (sent_filters jazz) ∷ []))) panel

can_save-save_example :
    (saved.busy ≡ false)
    × (saved.err ≡ none)
    × (saved.naming ≡ false)
    × (active_view jazz saved ≢ none)
    × (can_save true jazz saved ≡ false)
unfolding trim
can_save-save_example =
    can_save-save number_text jazz panel (view (codes "v2") (sent_filters jazz))
      (view (codes "v1") plain ∷ []) [] refl refl

abbrev song : ℕ → MatchResult
song score = record {
  track_id = codes "t1";
  title = [];
  artist = codes "Ann";
  album = none;
  score = score;
  segment_index = 0;
  preview_url = none;
  artwork_url = none;
  source = codes "local";
  tempo_bpm = none;
}

abbrev hum : List MatchResult → StoredMatch
hum rs = record {
  query_id = codes "q1";
  ts = 3;
  elapsed_ms = 150;
  count = 1;
  filename = none;
  duration_sec = some 4;
  name = none;
  tags = none;
  query_waveform = none;
  query_pitch = none;
  results = rs;
}

abbrev hums : List StoredMatch
hums = hum (song 450000 ∷ song 200000 ∷ []) ∷ hum [] ∷ []

one_hit : (add_matches no_totals hums).hits ≡ 1
unfolding add_matches
one_hit = refl

add_matches-IsTotal_example : IsTotal (length hums) (result_count hums) (add_matches no_totals hums)
add_matches-IsTotal_example = add_matches-IsTotal hums ((omega arith, (omega arith, tt)), (tt, tt))

-- A calendar with one day of 25 hours, which ends the summer time, and then days of 24 hours.
abbrev day_number : ℕ → ℕ
day_number t = if ltb t 90000000 then 0 else (t - 3600000) / 86400000

abbrev day_key : ℕ → Text
day_key t = replicate 5 b'-' ++ replicate (day_number t) b'1'

abbrev start_of_day : ℕ → ℕ
start_of_day t = if ltb t 90000000 then 0 else day_number t * 86400000 + 3600000

abbrev two_days : List StoredMatch
two_days = record (hum []) { ts = 1000 } ∷ record (hum []) { ts = 90001000 } ∷ []

-- The first of two days is a point twice, and the second is none: its one match is lost.
second_day_lost : map (λ p. p.queries) (day_points day_key start_of_day two_days) ≡ 1 ∷ 1 ∷ []
unfolding day_points add_days add_to_day points_of points_from point_at last_ts count_in_day sort_by
    text_eq
second_day_lost = refl
