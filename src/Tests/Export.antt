-- ===== src/Tests/Export.antt =====
-- The export of web/lib/export.ts on concrete inputs.
use clawhum.Prelude.{ℕ, List, [], ◌∷◌, map, none, some, ◌≡◌, refl, ◌==◌, if◌then◌else◌}
use clawhum.Prelude.Text.{Text, codes}
use clawhum.Model.{MatchResult, StoredMatch}
use clawhum.Export.{Value, flatten_matches, rows_to_csv, csv_field}
use clawhum.Export.Reader.{read_csv}
use clawhum.Export.Roundtrip.{texts, column_names, read_csv-rows_to_csv}

-- Digits as one mark for each unit, which is enough to tell small numbers apart.
abbrev tally : ℕ → Text
tally n = if n == 0 then codes "0" else if n == 1 then codes "1" else codes "9,9"

abbrev song : MatchResult
song = record {
  track_id = codes "t1";
  title = codes "Say \"hi\", twice";
  artist = codes "A";
  album = none;
  score = 7;
  segment_index = 0;
  preview_url = none;
  artwork_url = none;
  source = codes "local";
  tempo_bpm = some 1;
}

abbrev query : List MatchResult → StoredMatch
query rs = record {
  query_id = codes "q1";
  ts = 0;
  elapsed_ms = 1;
  count = 1;
  filename = some (codes "a,b.wav");
  duration_sec = none;
  name = none;
  tags = none;
  query_waveform = none;
  query_pitch = none;
  results = rs;
}

abbrev log : List StoredMatch
log = query (song ∷ song ∷ []) ∷ query [] ∷ []

quoted_field : csv_field tally (Value.text song.title) ≡ codes "\"Say \"\"hi\"\", twice\""
unfolding csv_field
quoted_field = refl

read_csv-rows_to_csv_example :
    read_csv (rows_to_csv tally (flatten_matches tally log))
    ≡ some (column_names tally ∷ map (texts tally) (flatten_matches tally log))
read_csv-rows_to_csv_example = read_csv-rows_to_csv tally (flatten_matches tally log)
