-- ===== src/Tests/Matches.antt =====
-- The query log of web/app/matches/page.tsx on concrete inputs.
use clawhum.Prelude.{
  ℕ, ◌≤◌, Bool, true, none, some, List, [], ◌∷◌, map, ◌≡◌, refl, if◌then◌else◌, length, arith,
}
use clawhum.Prelude.Text.{Text, codes, text_eq}
use clawhum.Model.{StoredMatch}
use clawhum.History.{holds, load_matches, get_match}
use clawhum.Query.{ts_desc}
use clawhum.Tags.{normalise_tags}
use clawhum.Keys.Handlers.{split_parts}
use clawhum.MatchesPage.{
  MatchesPage, all_time, page_size, filtered, total_pages, page_slice, visible, refresh,
  commit_rename, commit_tags, remove_one, clear_log,
}
use clawhum.MatchesPage.Pages.{first_pages, first_pages-filtered}
use clawhum.MatchesPage.Changes.{IsFresh, operations-IsFresh, commit_tags-get}

abbrev hum : StoredMatch
hum = record {
  query_id = codes "q1";
  ts = 3;
  elapsed_ms = 40;
  count = 0;
  filename = none;
  duration_sec = none;
  name = none;
  tags = none;
  query_waveform = none;
  query_pitch = none;
  results = [];
}

abbrev log : List StoredMatch
log = hum ∷ record hum { query_id = codes "q2"; ts = 9 } ∷ []

abbrev fits : List StoredMatch → Bool
fits ms = true

abbrev page : MatchesPage
page = record {
  browser = record { window = true; slot = holds log; posted = [] };
  items = some log;
  q = [];
  active_tags = [];
  min_score = 0;
  range = all_time;
  sort = ts_desc;
  page = 4;
  renaming = none;
  rename_draft = [];
  tagging = some (codes "q1");
  tag_draft = codes "Live, jazz";
}

first_pages-filtered_example :
    let ms = filtered 10 page in
    let n = total_pages (length ms) in
    (first_pages n ms ≡ ms)
    × (length (visible 10 page) ≤ page_size)
    × ((k : ℕ) × (1 ≤ k) × (k ≤ n) × (visible 10 page ≡ page_slice k ms))
first_pages-filtered_example = first_pages-filtered 10 page (omega arith)

page-IsFresh : IsFresh page
unfolding load_matches
page-IsFresh = refl

operations-IsFresh_example :
    IsFresh (refresh page)
    × IsFresh (commit_rename fits page)
    × IsFresh (commit_tags fits page)
    × IsFresh (remove_one fits true (codes "q1") page)
    × IsFresh (clear_log true page)
operations-IsFresh_example = operations-IsFresh fits page true (codes "q1") page-IsFresh

found : get_match page.browser (codes "q1") ≡ some hum
unfolding get_match load_matches text_eq
found = refl

commit_tags-get_example :
    let p' = commit_tags fits page in
    ((key : Text)
      → get_match p'.browser key ≡ (
          if text_eq (codes "q1") key
          then some (record hum {
            tags = some (normalise_tags (map some (split_parts [] (codes "Live, jazz"))));
          })
          else get_match page.browser key))
    × (p'.tagging ≡ none)
    × (p'.items ≡ some (load_matches p'.browser))
commit_tags-get_example = commit_tags-get fits page b'q' (codes "1") hum refl refl found refl
