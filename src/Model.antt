-- ===== src/Model.antt =====
-- The records that the client's modules share: `MatchResult` of web/lib/api.ts and `StoredMatch` of
-- web/lib/history.ts.
-- Numbers are natural numbers in a fixed unit (a score in millionths, say): the code compares them
-- and adds to counts. `undefined` and `null` are both `none`, as `??` reads them.
use clawhum.Prelude.{ℕ, Option, List}
use clawhum.Prelude.Text.{Text}

pub record MatchResult : Type 0 where
  pub track_id : Text
  pub title : Text
  pub artist : Text
  pub album : Option Text
  pub score : ℕ
  pub segment_index : ℕ
  pub preview_url : Option Text
  pub artwork_url : Option Text
  pub source : Text
  pub tempo_bpm : Option ℕ

-- The inline type of `query_pitch`.
pub record PitchContour : Type 0 where
  pub sr : ℕ
  pub duration_sec : ℕ
  pub hop_sec : ℕ
  pub times : List ℕ
  pub hz : List (Option ℕ)
  pub midi : List (Option ℕ)
  pub voiced_ratio : ℕ
  pub median_hz : ℕ

pub record StoredMatch : Type 0 where
  pub query_id : Text
  pub ts : ℕ
  pub elapsed_ms : ℕ
  pub count : ℕ
  pub filename : Option Text
  pub duration_sec : Option ℕ
  pub name : Option Text
  pub tags : Option (List Text)
  pub query_waveform : Option (List ℕ)
  pub query_pitch : Option PitchContour
  pub results : List MatchResult
