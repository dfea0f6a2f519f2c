-- ===== src/Share/Payloads.antt =====
-- Which payloads web/lib/share.ts builds and posts.
use clawhum.Prelude.{
  suc, true, false, not, ◌&&◌, Option, some, List, [], ◌∷◌, map, if◌then◌else◌, ltb, leb, length,
  is_empty, ◌≡◌, refl, ap, arith,
}
use clawhum.Prelude.Text.{Text}
use clawhum.Model.{MatchResult, StoredMatch}
use clawhum.Share.{
  ShareResult, PartialResult, ShareInput, HistoryLike, normalise_result, partial_result,
  to_share_input, history_to_share_input, is_shareable,
}

-- A result of a payload, read as a result that may lack fields.
abbrev pub as_partial : ShareResult → PartialResult
as_partial r = record {
  track_id = some r.track_id;
  title = some r.title;
  artist = r.artist;
  album = r.album;
  score = some r.score;
  segment_index = r.segment_index;
  preview_url = r.preview_url;
  artwork_url = r.artwork_url;
  source = r.source;
  tempo_bpm = r.tempo_bpm;
}

-- The history row that holds what a payload holds.
abbrev pub row_of : ShareInput → HistoryLike
row_of s = record {
  query_id = s.query_id;
  elapsed_ms = s.elapsed_ms;
  count = s.count;
  results = some (map as_partial s.results);
  filename = s.filename;
  duration_sec = s.duration_sec;
}

normalise_again : (rs : List ShareResult) → map normalise_result (map as_partial rs) ≡ rs
unfolding normalise_result
normalise_again [] = refl
normalise_again (r ∷ rs) = ap (λ l. r ∷ l) (normalise_again rs)

-- A stored match and the history row with the same data give the same payload, but for the note.
pub history_to_share_input-to_share_input :
    (m : StoredMatch) (remark : Option Text)
    → history_to_share_input (row_of (to_share_input m)) remark
      ≡ record (to_share_input m) { note = remark }
unfolding history_to_share_input
history_to_share_input-to_share_input m remark = rw (normalise_again (to_share_input m).results)

length-payload :
    (rs : List MatchResult) → length (map normalise_result (map partial_result rs)) ≡ length rs
length-payload [] = refl
length-payload (r ∷ rs) = ap suc (length-payload rs)

is_empty-payload :
    (rs : List MatchResult) → is_empty (map normalise_result (map partial_result rs)) ≡ is_empty rs
is_empty-payload [] = refl
is_empty-payload (r ∷ rs) = refl

tests :
    (id : Text) (rs : List MatchResult)
    → (if is_empty id
        then false
        else if is_empty rs
        then false
        else if ltb 50 (length rs)
        then false
        else true)
      ≡ (not (is_empty id) && ltb 0 (length rs) && leb (length rs) 50)
tests [] rs = ground arith
tests (c ∷ id) [] = refl
tests (c ∷ id) (r ∷ rs) = ground arith

-- The payload of a stored match may be posted exactly when the match has an id and has between 1 and
-- 50 results; and it has as many results as the match.
pub is_shareable-to_share_input :
    (m : StoredMatch)
    → (is_shareable (some (to_share_input m))
        ≡ (not (is_empty m.query_id) && ltb 0 (length m.results) && leb (length m.results) 50))
      × (length (to_share_input m).results ≡ length m.results)
unfolding is_shareable to_share_input
is_shareable-to_share_input m = (
  rw (length-payload m.results, is_empty-payload m.results) (tests m.query_id m.results),
  length-payload m.results,
)
