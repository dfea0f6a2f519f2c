-- ===== src/Tests/Library.antt =====
-- The history's searches and summaries of web/lib/history.ts on concrete inputs.
use clawhum.Prelude.{ℕ, true, none, some, List, [], ◌∷◌}
use clawhum.Prelude.Text.{Text, codes}
use clawhum.Prelude.Sort.{sum_by, max_by}
use clawhum.Model.{MatchResult, StoredMatch}
use clawhum.History.{Browser, holds, load_matches}
use clawhum.Query.{MatchFilter}
use clawhum.Catalog.{derive_catalog}
use clawhum.Catalog.Tracks.{Counts, occurs, score_at, all_results, derive_catalog-Counts}

abbrev song : Text → ℕ → MatchResult
song id score = record {
  track_id = id;
  title = codes "Blue";
  artist = codes "Ann";
  album = none;
  score = score;
  segment_index = 0;
  preview_url = none;
  artwork_url = none;
  source = codes "local";
  tempo_bpm = none;
}

abbrev hum : Text → ℕ → List Text → List MatchResult → StoredMatch
hum id ts tags results = record {
  query_id = id;
  ts = ts;
  elapsed_ms = 40;
  count = 0;
  filename = none;
  duration_sec = none;
  name = none;
  tags = some tags;
  query_waveform = none;
  query_pitch = none;
  results = results;
}

abbrev matches : List StoredMatch
matches =
    hum (codes "q1") 3 (codes "jazz" ∷ codes "lo-fi" ∷ []) (song (codes "t1") 90 ∷ [])
    ∷ hum (codes "q2") 2 (codes "jazz" ∷ []) (song (codes "t2") 60 ∷ song (codes "t1") 50 ∷ [])
    ∷ hum (codes "q3") 1 [] []
    ∷ []

abbrev jazz_above_70 : MatchFilter
jazz_above_70 = record {
  q = some (codes " BLUE");
  tags = some (codes "jazz" ∷ []);
  min_score = some 70;
  since = none;
  until = some 4;
}

abbrev stored : Browser
stored = record { window = true; slot = holds matches; posted = [] }

derive_catalog-Counts_example :
    Counts
      (codes "t1")
      (derive_catalog stored)
      (sum_by (occurs (codes "t1")) (all_results (load_matches stored)))
      (max_by (score_at (codes "t1")) (all_results (load_matches stored)))
      (max_by (occurs (codes "t1")) (all_results (load_matches stored)))
derive_catalog-Counts_example = derive_catalog-Counts (codes "t1") stored
