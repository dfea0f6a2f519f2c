-- ===== src/Share.antt =====
-- web/lib/share.ts: the payloads of POST /api/share.
-- A field that is optional in the payload is `none` where it is undefined or null.
pub mod Payloads
use clawhum.Prelude.{
  ℕ, Bool, true, false, Option, none, some, List, [], ◌∷◌, map, if◌then◌else◌, ltb, length,
  is_empty, or_else,
}
use clawhum.Prelude.Text.{Text}
use clawhum.Model.{MatchResult, StoredMatch}

pub record ShareResult : Type 0 where
  pub track_id : Text
  pub title : Text
  pub artist : Option Text
  pub album : Option Text
  pub score : ℕ
  pub segment_index : Option ℕ
  pub preview_url : Option Text
  pub artwork_url : Option Text
  pub source : Option Text
  pub tempo_bpm : Option ℕ

-- `Partial<MatchResult> | ShareResult`: any field may be missing.
pub record PartialResult : Type 0 where
  pub track_id : Option Text
  pub title : Option Text
  pub artist : Option Text
  pub album : Option Text
  pub score : Option ℕ
  pub segment_index : Option ℕ
  pub preview_url : Option Text
  pub artwork_url : Option Text
  pub source : Option Text
  pub tempo_bpm : Option ℕ

pub record ShareInput : Type 0 where
  pub query_id : Text
  pub elapsed_ms : ℕ
  pub count : ℕ
  pub results : List ShareResult
  pub filename : Option Text
  pub duration_sec : Option ℕ
  pub note : Option Text

-- `results` is `none` where the row has none.
pub record HistoryLike : Type 0 where
  pub query_id : Text
  pub elapsed_ms : ℕ
  pub count : ℕ
  pub results : Option (List PartialResult)
  pub filename : Option Text
  pub duration_sec : Option ℕ

unfoldable pub normalise_result : PartialResult → ShareResult
normalise_result r = record {
  track_id = or_else r.track_id [];
  title = or_else r.title [];
  artist = r.artist;
  album = r.album;
  score = or_else r.score 0;
  segment_index = r.segment_index;
  preview_url = r.preview_url;
  artwork_url = r.artwork_url;
  source = r.source;
  tempo_bpm = r.tempo_bpm;
}

-- A match result is a partial result with nothing missing.
abbrev pub partial_result : MatchResult → PartialResult
partial_result r = record {
  track_id = some r.track_id;
  title = some r.title;
  artist = some r.artist;
  album = r.album;
  score = some r.score;
  segment_index = some r.segment_index;
  preview_url = r.preview_url;
  artwork_url = r.artwork_url;
  source = some r.source;
  tempo_bpm = r.tempo_bpm;
}

unfoldable pub to_share_input : StoredMatch → ShareInput
to_share_input m = record {
  query_id = m.query_id;
  elapsed_ms = m.elapsed_ms;
  count = m.count;
  results = map normalise_result (map partial_result m.results);
  filename = m.filename;
  duration_sec = m.duration_sec;
  note = none;
}

unfoldable pub history_to_share_input : HistoryLike → Option Text → ShareInput
history_to_share_input it remark = record {
  query_id = it.query_id;
  elapsed_ms = it.elapsed_ms;
  count = it.count;
  results = map normalise_result (or_else it.results []);
  filename = it.filename;
  duration_sec = it.duration_sec;
  note = remark;
}

unfoldable pub is_shareable : Option ShareInput → Bool
is_shareable none = false
is_shareable (some s) =
    if is_empty s.query_id
    then false
    else if is_empty s.results
    then false
    else if ltb 50 (length s.results)
    then false
    else true
