-- ===== src/Tests/Collections.antt =====
-- The editor of web/app/collections/page.tsx and the triplets of web/app/feedback/page.tsx on
-- concrete inputs.
use clawhum.Prelude.{ℕ, ◌+◌, ◌*◌, true, false, none, some, List, [], ◌∷◌, ◌≡◌, refl, length, filter}
use clawhum.Prelude.Text.{Text, codes, trim, trim_start, trim_end, is_space}
use clawhum.Collections.{CollectionItem, HistoryItem, Editor}
use clawhum.Collections.Saving.{SaveRequest, save_begin}
use clawhum.Feedback.{FeedbackRow, Vote, confirm, reject, build_triplets}
use clawhum.Feedback.Triplets.{is_triplet, is_confirm, is_reject, build_triplets-count}

abbrev item : Text → CollectionItem
item label = record {
  label = label;
  results = [];
  query_id = none;
  elapsed_ms = none;
  filename = none;
  duration_sec = none;
}

abbrev editor : Editor
editor = record {
  list = none;
  list_loading = false;
  list_err = none;
  editing_id = some (codes "c1");
  title = codes " mix ";
  note = codes " ";
  items = item (codes "a") ∷ item (codes "b") ∷ [];
  saving = false;
  save_err = none;
  copied_id = none;
  busy_id = none;
  history = none;
  history_err = none;
  toasts = [];
}

abbrev heard : HistoryItem
heard = record {
  id = codes "h";
  created_at = 1;
  query_id = codes "q";
  elapsed_ms = 2;
  count = 0;
  results = [];
  filename = none;
  duration_sec = none;
  name = none;
  tags = [];
  starred = false;
}

abbrev number_text : ℕ → Text
number_text n = (b'0' + n) ∷ []

abbrev request : SaveRequest
request = record {
  target = some (codes "c1");
  title = codes "mix";
  note = none;
  items = item (codes "a") ∷ item (codes "b") ∷ [];
}

abbrev waiting : Editor
waiting = record editor { saving = true }

begins : save_begin number_text editor ≡ (waiting, some request)
unfolding save_begin trim trim_start trim_end is_space
begins = refl

abbrev row : Text → Vote → FeedbackRow
row track vote = record {
  ts = 1;
  query_id = codes "q";
  track_id = track;
  score = 1;
  vote = vote;
  tenant_id = none;
}

abbrev rows : List FeedbackRow
rows = row (codes "a") confirm ∷ row (codes "b") reject ∷ row (codes "a") confirm ∷ []

build_triplets-count_example :
    length (filter (is_triplet (codes "q") (codes "a") (codes "b")) (build_triplets rows).0)
    ≡ length (filter (is_confirm (codes "q") (codes "a")) rows)
      * length (filter (is_reject (codes "q") (codes "b")) rows)
build_triplets-count_example = build_triplets-count rows (codes "q") (codes "a") (codes "b")
