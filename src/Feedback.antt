-- ===== src/Feedback.antt =====
-- web/app/feedback/page.tsx: the triplets for training that the votes of the loaded rows give.
pub mod Triplets
use clawhum.Prelude.{
  ℕ, suc, ◌+◌, ◌*◌, ◌-◌, min, Bool, true, false, List, [], ◌∷◌, ◌++◌, map, if◌then◌else◌, ◌==◌,
  length, Option, none, some, is_empty,
}
use clawhum.Prelude.Text.{Text, codes, text_eq, trim}

pub data Vote : Type 0 where
  reject neutral confirm : Vote

pub record FeedbackRow : Type 0 where
  pub ts : ℕ
  pub query_id : Text
  pub track_id : Text
  pub score : ℕ
  pub vote : Vote
  pub tenant_id : Option Text

-- `{ pos, neg }`
pub record Bucket : Type 0 where
  pub pos : List FeedbackRow
  pub neg : List FeedbackRow

abbrev pub empty_bucket : Bucket
empty_bucket = record { pos = []; neg = [] }

pub record Triplet : Type 0 where
  pub anchor : Text
  pub positive : Text
  pub negative : Text

pub record Pairs : Type 0 where
  pub positives : ℕ
  pub negatives : ℕ
  pub queries : ℕ

-- Where a row goes in the bucket of its query.
unfoldable pub push_vote : Vote → FeedbackRow → Bucket → Bucket
push_vote confirm r b = record b { pos = b.pos ++ r ∷ [] }
push_vote reject r b = record b { neg = b.neg ++ r ∷ [] }
push_vote neutral r b = b

-- The map `byQuery` is the list of its entries in the order of insertion; a row is filed under its
-- query, in a new entry where there is none.
unfoldable pub file_row : FeedbackRow → List (Text × Bucket) → List (Text × Bucket)
unfolding push_vote
file_row r [] = (r.query_id, push_vote r.vote r empty_bucket) ∷ []
file_row r ((q, b) ∷ m) =
    let rest = file_row r m in
    if text_eq q r.query_id then (q, push_vote r.vote r b) ∷ m else (q, b) ∷ rest

unfoldable pub file_rows : List FeedbackRow → List (Text × Bucket) → List (Text × Bucket)
unfolding file_row
file_rows [] m = m
file_rows (r ∷ rs) m = file_rows rs (file_row r m)

-- `for (const n of b.neg)`
unfoldable pub with_negatives : Text → FeedbackRow → List FeedbackRow → List Triplet
with_negatives q p [] = []
with_negatives q p (n ∷ ns) =
    record { anchor = q; positive = p.track_id; negative = n.track_id } ∷ with_negatives q p ns

-- `for (const p of b.pos)`
unfoldable pub with_positives : Text → List FeedbackRow → List FeedbackRow → List Triplet
unfolding with_negatives
with_positives q [] ns = []
with_positives q (p ∷ ps) ns = with_negatives q p ns ++ with_positives q ps ns

-- The loop over `byQuery`.
unfoldable pub triplets_of : List (Text × Bucket) → List Triplet
unfolding with_positives
triplets_of [] = []
triplets_of ((q, b) ∷ m) = with_positives q b.pos b.neg ++ triplets_of m

unfoldable pub count_pairs : List (Text × Bucket) → ℕ × ℕ
count_pairs [] = (0, 0)
count_pairs ((q, b) ∷ m) =
    let rest = count_pairs m in (length b.pos + rest.0, length b.neg + rest.1)

unfoldable pub build_triplets : List FeedbackRow → List Triplet × Pairs
unfolding file_rows triplets_of count_pairs
build_triplets rows =
    let by_query = file_rows rows [] in
    let counts = count_pairs by_query in
    (
      triplets_of by_query,
      record { positives = counts.0; negatives = counts.1; queries = length by_query },
    )

-- `const PAGE = 200`
abbrev pub feedback_page : ℕ
feedback_page = 200

-- `buildQuery`'s parameters; `none` is "all".
unfoldable pub query_params : (ℕ → Text) → Option Vote → Text → ℕ → List (Text × Text)
query_params number_text vote track offset =
    (codes "limit", number_text feedback_page)
    ∷ (codes "offset", number_text offset)
    ∷ (elim vote [ none ↦ [] | some v ↦ (codes "vote", vote_text v) ∷ [] ]
        ++ (if is_empty track then [] else (codes "track_id", track) ∷ []))
  where
    vote_text : Vote → Text
    vote_text reject = codes "-1"
    vote_text neutral = codes "0"
    vote_text confirm = codes "1"
