-- ===== src/Export.antt =====
-- web/lib/export.ts: the flat rows of the query log, their CSV text and the JSON payload.
-- `String` of a number and `toISOString` are the parameters `number_text` and `iso_string`.
pub mod Reader
pub mod Roundtrip
pub mod Rows
use clawhum.Prelude.{
  ℕ, ◌+◌, Bool, true, false, ◌||◌, Option, none, some, List, [], ◌∷◌, ◌++◌, map, if◌then◌else◌,
  ◌==◌, any, is_empty, or_else, length,
}
use clawhum.Prelude.Text.{Text, codes, join}
use clawhum.Model.{MatchResult, StoredMatch}

-- What a column of a row holds: `string`, `number`, or nothing.
pub data Value : Type 0 where
  missing : Value
  text : Text → Value
  number : ℕ → Value

-- /[",\r\n]/
unfoldable pub is_special : ℕ → Bool
is_special c = c == b'"' || c == b',' || c == 13 || c == 10

-- s.replace(/"/g, '""')
unfoldable pub double_quotes : Text → Text
double_quotes [] = []
double_quotes (c ∷ s) = let rest = double_quotes s in if c == b'"' then c ∷ c ∷ rest else c ∷ rest

unfoldable pub escape : Text → Text
escape s = if any is_special s then b'"' ∷ (double_quotes s ++ b'"' ∷ []) else s

pub record FlatRow : Type 0 where
  pub query_id : Text
  pub timestamp_iso : Text
  pub query_filename : Text
  pub query_duration_sec : Value
  pub candidate_rank : ℕ
  pub track_id : Text
  pub title : Text
  pub artist : Text
  pub album : Text
  pub source : Text
  pub score : ℕ
  pub segment_index : ℕ
  pub tempo_bpm : Value
  pub preview_url : Text
  pub artwork_url : Text
  pub elapsed_ms : ℕ
  pub candidate_count : ℕ

-- `FLAT_COLUMNS`: the name of each column and the field that it reads.
unfoldable pub flat_columns : List (Text × (FlatRow → Value))
flat_columns =
    (codes "query_id", λ r. text r.query_id)
    ∷ (codes "timestamp_iso", λ r. text r.timestamp_iso)
    ∷ (codes "query_filename", λ r. text r.query_filename)
    ∷ (codes "query_duration_sec", λ r. r.query_duration_sec)
    ∷ (codes "candidate_rank", λ r. number r.candidate_rank)
    ∷ (codes "track_id", λ r. text r.track_id)
    ∷ (codes "title", λ r. text r.title)
    ∷ (codes "artist", λ r. text r.artist)
    ∷ (codes "album", λ r. text r.album)
    ∷ (codes "source", λ r. text r.source)
    ∷ (codes "score", λ r. number r.score)
    ∷ (codes "segment_index", λ r. number r.segment_index)
    ∷ (codes "tempo_bpm", λ r. r.tempo_bpm)
    ∷ (codes "preview_url", λ r. text r.preview_url)
    ∷ (codes "artwork_url", λ r. text r.artwork_url)
    ∷ (codes "elapsed_ms", λ r. number r.elapsed_ms)
    ∷ (codes "candidate_count", λ r. number r.candidate_count)
    ∷ []

abbrev pub crlf : Text
crlf = 13 ∷ 10 ∷ []

-- `x ?? ""` for a number.
abbrev pub number_or_blank : Option ℕ → Value
number_or_blank none = text []
number_or_blank (some n) = number n

pub record ExportedMatch : Type 0 where
  pub query_id : Text
  pub ts : ℕ
  pub timestamp_iso : Text
  pub elapsed_ms : ℕ
  pub count : ℕ
  pub filename : Option Text
  pub duration_sec : Option ℕ
  pub results : List MatchResult

-- The object that `buildJsonExport` returns.
pub record JsonExport : Type 0 where
  pub exported_at : Text
  pub schema : Text
  pub count : ℕ
  pub matches : List ExportedMatch

module _ (iso_string : ℕ → Text) where
  abbrev pub placeholder_row : StoredMatch → FlatRow
  placeholder_row m = record {
    query_id = m.query_id;
    timestamp_iso = iso_string m.ts;
    query_filename = or_else m.filename [];
    query_duration_sec = number_or_blank m.duration_sec;
    candidate_rank = 0;
    track_id = [];
    title = [];
    artist = [];
    album = [];
    source = [];
    score = 0;
    segment_index = 0;
    tempo_bpm = text [];
    preview_url = [];
    artwork_url = [];
    elapsed_ms = m.elapsed_ms;
    candidate_count = 0;
  }

  abbrev pub candidate_row : StoredMatch → MatchResult → ℕ → FlatRow
  candidate_row m r i = record {
    query_id = m.query_id;
    timestamp_iso = iso_string m.ts;
    query_filename = or_else m.filename [];
    query_duration_sec = number_or_blank m.duration_sec;
    candidate_rank = i + 1;
    track_id = r.track_id;
    title = r.title;
    artist = r.artist;
    album = or_else r.album [];
    source = r.source;
    score = r.score;
    segment_index = r.segment_index;
    tempo_bpm = number_or_blank r.tempo_bpm;
    preview_url = or_else r.preview_url [];
    artwork_url = or_else r.artwork_url [];
    elapsed_ms = m.elapsed_ms;
    candidate_count = m.count;
  }

  -- The `forEach` over the results; `i` is its index.
  unfoldable pub candidate_rows : StoredMatch → ℕ → List MatchResult → List FlatRow
  candidate_rows m i [] = []
  candidate_rows m i (r ∷ rs) = candidate_row m r i ∷ candidate_rows m (i + 1) rs

  unfoldable pub flatten_matches : List StoredMatch → List FlatRow
  unfolding candidate_rows
  flatten_matches [] = []
  flatten_matches (m ∷ ms) =
      (if is_empty m.results then placeholder_row m ∷ [] else candidate_rows m 0 m.results)
      ++ flatten_matches ms

  abbrev exported : StoredMatch → ExportedMatch
  exported m = record {
    query_id = m.query_id;
    ts = m.ts;
    timestamp_iso = iso_string m.ts;
    elapsed_ms = m.elapsed_ms;
    count = m.count;
    filename = m.filename;
    duration_sec = m.duration_sec;
    results = m.results;
  }

  -- `now` is the clock's reading.
  unfoldable pub build_json_export : ℕ → List StoredMatch → JsonExport
  build_json_export now matches = record {
    exported_at = iso_string now;
    schema = codes "clawhum.matches.export.v1";
    count = length matches;
    matches = map exported matches;
  }

module _ (number_text : ℕ → Text) where
  unfoldable pub value_text : Value → Text
  value_text missing = []
  value_text (text s) = s
  value_text (number n) = number_text n

  unfoldable pub csv_field : Value → Text
  unfolding escape is_special double_quotes
  csv_field missing = []
  csv_field (text s) = if is_empty s then [] else escape s
  csv_field (number n) = let s = number_text n in if is_empty s then [] else escape s

  unfoldable pub csv_line : FlatRow → Text
  unfolding csv_field flat_columns join
  csv_line r = join (b',' ∷ []) (map (λ c. csv_field (c.1 r)) flat_columns)

  unfoldable pub rows_to_csv : List FlatRow → Text
  unfolding csv_line
  rows_to_csv rows =
      join crlf (join (b',' ∷ []) (map (λ c. c.0) flat_columns) ∷ map csv_line rows) ++ crlf
