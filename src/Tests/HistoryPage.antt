-- ===== src/Tests/HistoryPage.antt =====
-- The history page of web/app/history/page.tsx and its worker pool on concrete inputs.
use clawhum.Prelude.{
  ℕ, ◌+◌, ◌≤◌, ◌↔◌, Bool, true, false, none, some, List, [], ◌∷◌, ◌≡◌, refl, inl, if◌then◌else◌,
  ltb, length, filter, take, arith,
}
use clawhum.Prelude.Text.{
  Text, codes, text_eq, trim, lower, trim_start, trim_end, is_space, lower_unit, split,
}
use clawhum.Prelude.TextSet.{Distinct}
use clawhum.SavedViews.{recent}
use clawhum.BulkSelect
use clawhum.BulkSelect.{toggle_id, prune_stale, summarize}
use clawhum.WorkerPool.{
  Pool, Run, stop, answered, limit, start_pool, start_workers, proceed, resume, awaited,
}
use clawhum.WorkerPool.Answers.{failures, items_of}
use clawhum.WorkerPool.Progress.{Run-requests, Run-ends, Run-completes, answered_by}
use clawhum.HistoryPage.{
  HistoryItem, HistoryList, HistoryPage, threw, tagging, deleting, fetch_begin, fetch_end,
  visible_ids, drop_stale, all_selected, some_selected, toggle_one, toggle_all,
}
use clawhum.HistoryPage.Selection.{selection-agrees}
use clawhum.HistoryPage.Bulk.{
  bulk_delete_begin, bulk_delete_pooled, bulk_end, failed_of, bulk_delete-result, draft_tags,
  bulk_add_tags_begin, selected_items,
}
use clawhum.HistoryPage.Paging.{total_of, IsOnPage}

abbrev ids : List Text
ids = codes "a" ∷ codes "b" ∷ []

abbrev log : List (Text × Bool)
log = (codes "b", true) ∷ (codes "a", false) ∷ []

-- The answers for "b" and then for "a", whose request fails.
abbrev done_pool : Pool Text
done_pool = record { next = 2; failed = 1; requested = ids; workers = none ∷ none ∷ [] }

run : Run ids (start_pool ids) log done_pool
unfolding start_pool start_workers proceed resume
run = answered 1 (codes "b") true refl (answered 0 (codes "a") false refl stop)

Run-requests_example :
    (done_pool.requested ≡ take done_pool.next ids)
    × (length (awaited done_pool.workers) ≤ limit)
    × ((f : Text → Bool)
        → length (filter f done_pool.requested)
          ≡ length (filter f (items_of log)) + length (filter f (awaited done_pool.workers)))
    × (done_pool.failed ≡ failures log)
Run-requests_example = Run-requests ids done_pool log run

Run-ends_example :
    (length log ≤ length ids) × ((awaited done_pool.workers ≡ []) ↔ (length log ≡ length ids))
Run-ends_example = Run-ends ids done_pool log run

Run-completes_example :
    (its : List Text) × (q : Pool Text) × Run ids
      (start_pool ids)
      (answered_by (λ t. text_eq t (codes "b")) its)
      q
    × (awaited q.workers ≡ [])
    × (0 + length its ≡ 2)
Run-completes_example = Run-completes ids (start_pool ids) [] (λ t. text_eq t (codes "b")) stop

abbrev item_a : HistoryItem
item_a = record {
  id = codes "a";
  created_at = 1;
  updated_at = 1;
  query_id = codes "q";
  elapsed_ms = 5;
  count = 0;
  results = [];
  filename = none;
  duration_sec = none;
  name = none;
  tags = codes "jazz" ∷ [];
  starred = false;
}

abbrev item_c : HistoryItem
item_c = record item_a { id = codes "c"; tags = codes "blues" ∷ [] }

abbrev list : HistoryList
list = record { items = item_a ∷ item_c ∷ []; total = 60; limit = 25; offset = 25 }

abbrev start : HistoryPage
start = record {
  q = [];
  tag = [];
  sort = recent;
  starred_only = false;
  offset = 25;
  data_ = some list;
  loading = false;
  err = none;
  selected = ids;
  bulk_busy = none;
  bulk_tag_draft = codes " Live ,";
  show_bulk_tag = true;
}

ids-Distinct : Distinct ids
unfolding text_eq
ids-Distinct = (refl, (refl, tt))

selection-agrees_example :
    ((toggle_one (codes "b") start).selected ≡ toggle_id ids (codes "b"))
    × ((toggle_all start).selected ≡ BulkSelect.toggle_all ids (visible_ids start))
    × ((drop_stale start).selected ≡ prune_stale ids (visible_ids start))
    × (all_selected start ≡ (summarize ids (visible_ids start)).all_selected)
    × (some_selected start ≡ (summarize ids (visible_ids start)).some_selected)
selection-agrees_example = selection-agrees start (codes "b") ids-Distinct

abbrev number_text : ℕ → Text
number_text n = (b'0' + n) ∷ []

begins : bulk_delete_begin true start ≡ some (record start { bulk_busy = some deleting }, ids)
unfolding bulk_delete_begin
begins = refl

bulk_delete-result_example :
    let done = fetch_end number_text (threw []) (fetch_begin start) in
    let p' =
      bulk_end number_text
        (codes "bulk delete: ")
        1
        2
        (threw [])
        (bulk_delete_pooled (record start { bulk_busy = some deleting })) in
    (done_pool.requested ≡ ids)
    × ((f : Text → Bool) → length (filter f (items_of log)) ≡ length (filter f ids))
    × (p'.selected ≡ [])
    × (p'.bulk_busy ≡ none)
    × (p'.loading ≡ false)
    × (p'.data_ ≡ done.data_)
    × (p'.err ≡ (
        if ltb 0 (failures log)
        then some (failed_of number_text (codes "bulk delete: ") (failures log) 2)
        else done.err))
bulk_delete-result_example =
    bulk_delete-result number_text start (record start { bulk_busy = some deleting }) ids done_pool
      log (threw []) begins run refl

abbrev done_tags : Pool HistoryItem
done_tags = record { next = 1; failed = 0; requested = item_a ∷ []; workers = none ∷ [] }

tags-Run : Run (item_a ∷ []) (start_pool (item_a ∷ [])) ((item_a, true) ∷ []) done_tags
unfolding start_pool start_workers proceed resume
tags-Run = answered 0 item_a true refl stop

tags_begin :
    bulk_add_tags_begin start
    ≡ some (record start { bulk_busy = some tagging }, item_a ∷ [], codes "live" ∷ [])
unfolding bulk_add_tags_begin draft_tags selected_items split trim trim_start trim_end is_space
    lower lower_unit text_eq
tags_begin = refl

start-IsOnPage : IsOnPage start
unfolding total_of
start-IsOnPage = (refl, inl (omega arith))
