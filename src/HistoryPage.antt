-- ===== src/HistoryPage.antt =====
-- web/app/history/page.tsx: the state of the history page and its handlers.
-- A handler is split at its `await`s, and the functions between two of them are the steps. The pool
-- of workers of the two bulk operations is WorkerPool.antt. `number_text` is `String` of a number.
pub mod Selection
pub mod Bulk
pub mod Paging
use clawhum.Prelude.{
  ℕ, ◌+◌, ◌-◌, ◌*◌, ◌/◌, max, Bool, true, false, not, ◌&&◌, ◌||◌, Option, none, some, List, [], ◌∷◌,
  ◌++◌, map, if◌then◌else◌, ltb, leb, ◌==◌, all, filter, is_empty, length,
}
use clawhum.Prelude.Text.{Text, codes, trim, lower}
use clawhum.Prelude.TextSet.{has, add, delete}
use clawhum.Prelude.TextOrder.{text_le}
use clawhum.Prelude.Sort.{sort_by}
use clawhum.BulkSelect.{add_all, delete_all}
use clawhum.SavedViews.{SortKey, recent, oldest, name, results, top_score, same_sort}

pub record MatchResult : Type 0 where
  pub track_id : Text
  pub title : Text
  pub artist : Option Text
  pub album : Option Text
  pub score : ℕ
  pub segment_index : Option ℕ
  pub preview_url : Option Text
  pub artwork_url : Option Text
  pub source : Option Text
  pub tempo_bpm : Option ℕ

pub record HistoryItem : Type 0 where
  pub id : Text
  pub created_at : ℕ
  pub updated_at : ℕ
  pub query_id : Text
  pub elapsed_ms : ℕ
  pub count : ℕ
  pub results : List MatchResult
  pub filename : Option Text
  pub duration_sec : Option ℕ
  pub name : Option Text
  pub tags : List Text
  pub starred : Bool

pub record HistoryList : Type 0 where
  pub items : List HistoryItem
  pub total : ℕ
  pub limit : ℕ
  pub offset : ℕ

-- `const PAGE = 25`
abbrev pub page_size : ℕ
page_size = 25

pub data BulkKind : Type 0 where
  deleting : BulkKind
  tagging : BulkKind

pub record HistoryPage : Type 0 where
  pub q : Text
  pub tag : Text
  pub sort : SortKey
  pub starred_only : Bool
  pub offset : ℕ
  pub data_ : Option HistoryList
  pub loading : Bool
  pub err : Option Text
  pub selected : List Text
  pub bulk_busy : Option BulkKind
  pub bulk_tag_draft : Text
  pub show_bulk_tag : Bool

-- How a request ends: `fetch` or `json` throws with a message, a status that is not ok, or the list.
pub data HistoryAnswer : Type 0 where
  threw : Text → HistoryAnswer
  refused : ℕ → HistoryAnswer
  listed : HistoryList → HistoryAnswer

-- The value of a `SortKey`.
unfoldable pub sort_value : SortKey → Text
sort_value recent = codes "recent"
sort_value oldest = codes "oldest"
sort_value name = codes "name"
sort_value results = codes "results"
sort_value top_score = codes "top_score"

-- A search parameter that is set under a condition.
abbrev pub set_if : Bool → Text → Text → List (Text × Text)
set_if b key value = if b then (key, value) ∷ [] else []

unfoldable pub select_visible : List HistoryItem → List Text
select_visible items = map (λ (it : HistoryItem). it.id) items

-- `fetchHistory` up to its request.
unfoldable pub fetch_begin : HistoryPage → HistoryPage
fetch_begin p = record p { loading = true; err = none }

module _ (number_text : ℕ → Text) where
  -- The search parameters of the request of `fetchHistory`.
  unfoldable pub history_query : HistoryPage → List (Text × Text)
  unfolding sort_value
  history_query p =
      (codes "limit", number_text page_size)
      ∷ (codes "offset", number_text p.offset)
      ∷ (set_if (not (is_empty (trim p.q))) (codes "q") (trim p.q)
          ++ (set_if (not (is_empty (trim p.tag))) (codes "tag") (lower (trim p.tag))
              ++ (set_if (not (same_sort p.sort recent)) (codes "sort") (sort_value p.sort)
                  ++ set_if p.starred_only (codes "starred") (codes "true"))))

  -- `fetchHistory` from the answer on.
  unfoldable pub fetch_end : HistoryAnswer → HistoryPage → HistoryPage
  fetch_end (threw m) p = record p { err = some m; data_ = none; loading = false }
  fetch_end (refused status) p = record p {
    err = some (
        if status == 401
        then codes "missing api key. set one in settings to enable cloud history."
        else codes "fetch failed (" ++ (number_text status ++ codes ")"));
    data_ = none;
    loading = false;
  }
  fetch_end (listed l) p = record p { data_ = some l; loading = false }

-- A change of `q`, `tag`, `sort` or `starredOnly`, with the effect that resets the paging.
unfoldable pub set_filters : Text → Text → SortKey → Bool → HistoryPage → HistoryPage
set_filters q tag sort starred p = record p {
  q = q;
  tag = tag;
  sort = sort;
  starred_only = starred;
  offset = 0;
}

unfoldable pub visible_ids : HistoryPage → List Text
unfolding select_visible
visible_ids p = elim p.data_ [ none ↦ [] | some l ↦ select_visible l.items ]

-- The loop of the effect that drops stale selections.
unfoldable pub keep_visible : List Text → List Text → List Text → List Text
keep_visible next visible [] = next
keep_visible next visible (id ∷ prev) =
    keep_visible (if has visible id then add next id else next) visible prev

-- The effect on a new `data`.
unfoldable pub drop_stale : HistoryPage → HistoryPage
unfolding keep_visible select_visible
drop_stale p = elim p.data_ [
  | none ↦ p
  | some l ↦
      let next = keep_visible [] (select_visible l.items) p.selected in
      record p { selected = if length next == length p.selected then p.selected else next }
]

unfoldable pub all_selected : HistoryPage → Bool
unfolding visible_ids
all_selected p = ltb 0 (length (visible_ids p)) && all (has p.selected) (visible_ids p)

unfoldable pub some_selected : HistoryPage → Bool
unfolding all_selected
some_selected p = ltb 0 (length p.selected) && not (all_selected p)

unfoldable pub toggle_one : Text → HistoryPage → HistoryPage
toggle_one id p = record p {
  selected = if has p.selected id then delete p.selected id else add p.selected id;
}

-- The loops over `visibleIds` are those of web/lib/bulkSelect.ts.
unfoldable pub toggle_all : HistoryPage → HistoryPage
unfolding visible_ids add_all delete_all
toggle_all p = record p {
  selected =
      if all (has p.selected) (visible_ids p)
      then delete_all p.selected (visible_ids p)
      else add_all p.selected (visible_ids p);
}

unfoldable pub clear_selection : HistoryPage → HistoryPage
clear_selection p = record p { selected = [] }

-- `patch` and `remove`: is the list fetched again? For `remove`, `confirm` was answered first, and
-- nothing is sent without it.
unfoldable pub patch_answered : Bool → HistoryPage → HistoryPage
unfolding fetch_begin
patch_answered ok p = if ok then fetch_begin p else p
