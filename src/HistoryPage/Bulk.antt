-- ===== src/HistoryPage/Bulk.antt =====
-- `bulkDelete` and `bulkAddTags` of web/app/history/page.tsx, around the pool of WorkerPool.antt.
use clawhum.Prelude.{
  ℕ, Bool, true, false, not, ◌||◌, Option, none, some, List, [], ◌∷◌, ◌++◌, map, if◌then◌else◌, ltb,
  filter, is_empty, length, All, ◌≡◌, refl, ◌∙◌, ap, arith,
}
use clawhum.Prelude.Text.{Text, codes, trim, lower, split}
use clawhum.Prelude.TextSet.{has, Distinct, has-append}
use clawhum.Prelude.TextTrim.{lower-trim_idempotent}
use clawhum.BulkSelect.Laws.{has-add_all, Distinct-add_all}
use clawhum.BulkSelect.{add_all}
use clawhum.WorkerPool.{Pool, Run, start_pool, awaited}
use clawhum.WorkerPool.Answers.{failures, items_of}
use clawhum.WorkerPool.Progress.{Run-finished}
use clawhum.HistoryPage.{
  HistoryItem, HistoryPage, HistoryAnswer, threw, refused, listed, deleting, tagging, fetch_begin,
  fetch_end, clear_selection,
}

-- `bulkDelete` up to its pool, with the answer of `confirm`: the ids that the pool deletes.
unfoldable pub bulk_delete_begin : Bool → HistoryPage → Option (HistoryPage × List Text)
bulk_delete_begin confirmed p =
    if is_empty p.selected
    then none
    else if not confirmed
    then none
    else some (record p { bulk_busy = some deleting }, p.selected)

-- `bulkDelete` from the end of its pool up to the request of `fetchHistory`.
unfoldable pub bulk_delete_pooled : HistoryPage → HistoryPage
unfolding clear_selection fetch_begin
bulk_delete_pooled p = fetch_begin (clear_selection p)

-- The tags of the draft.
unfoldable pub draft_tags : List Text → List Text
draft_tags parts = filter (λ t. not (is_empty t)) (map (λ s. lower (trim s)) parts)

-- `data?.items.filter((it) => selected.has(it.id)) ?? []`
unfoldable pub selected_items : HistoryPage → List HistoryItem
selected_items p = elim p.data_ [
  | none ↦ []
  | some l ↦ filter (λ (it : HistoryItem). has p.selected it.id) l.items
]

-- `bulkAddTags` up to its pool: the items that the pool patches, and the tags.
unfoldable pub bulk_add_tags_begin :
    HistoryPage → Option (HistoryPage × List HistoryItem × List Text)
unfolding draft_tags selected_items
bulk_add_tags_begin p =
    let tags = draft_tags (split b',' [] p.bulk_tag_draft) in
    if is_empty p.selected
    then none
    else if is_empty tags
    then none
    else some (record p { bulk_busy = some tagging }, selected_items p, tags)

-- The tags that the request for an item sends: `new Set([...it.tags, ...tags])`.
unfoldable pub merged : List Text → HistoryItem → List Text
unfolding add_all
merged tags it = add_all [] (it.tags ++ tags)

unfoldable pub bulk_add_tags_pooled : HistoryPage → HistoryPage
unfolding fetch_begin
bulk_add_tags_pooled p = fetch_begin (record p { bulk_tag_draft = []; show_bulk_tag = false })

module _ (number_text : ℕ → Text) where
  abbrev pub failed_of : Text → ℕ → ℕ → Text
  failed_of what failed n =
      what ++ (number_text failed ++ (codes " of " ++ (number_text n ++ codes " failed")))

  -- A bulk operation from the answer to `fetchHistory` on.
  unfoldable pub bulk_end : Text → ℕ → ℕ → HistoryAnswer → HistoryPage → HistoryPage
  unfolding fetch_end
  bulk_end what failed n answer p =
      let p' = fetch_end number_text answer p in
      record p' {
        err = if ltb 0 failed then some (failed_of what failed n) else p'.err;
        bulk_busy = none;
      }

begin-shape :
    (p p1 : HistoryPage) (ids : List Text)
    → bulk_delete_begin true p ≡ some (p1, ids)
    → (ids ≡ p.selected) × (p1 ≡ record p { bulk_busy = some deleting })
unfolding bulk_delete_begin
begin-shape p p1 ids b = ground (arith, b)

fetched :
    (number_text : ℕ → Text) (answer : HistoryAnswer) (p : HistoryPage)
    → let done = fetch_end number_text answer (fetch_begin p) in
      let p' =
        fetch_end number_text answer
          (bulk_delete_pooled (record p { bulk_busy = some deleting })) in
      (p'.selected ≡ []) × (p'.loading ≡ false) × (p'.data_ ≡ done.data_) × (p'.err ≡ done.err)
unfolding fetch_end bulk_delete_pooled
fetched number_text (threw m) p = (refl, refl, refl, refl)
fetched number_text (refused status) p = (refl, refl, refl, refl)
fetched number_text (listed l) p = (refl, refl, refl, refl)

-- `bulkDelete`, once it is confirmed and while nothing else changes the page: when every request of
-- its pool is answered and then the list, each selected id was requested once, in order, and
-- answered once; the selection is empty, the page is idle again and shows the fetched list; and the
-- error says how many requests failed, where any did.
pub bulk_delete-result :
    (number_text : ℕ → Text) (p p1 : HistoryPage) (ids : List Text) (pool : Pool Text)
    → (log : List (Text × Bool)) (answer : HistoryAnswer)
    → bulk_delete_begin true p ≡ some (p1, ids)
    → Run ids (start_pool ids) log pool
    → awaited pool.workers ≡ []
    → let done = fetch_end number_text answer (fetch_begin p) in
      let p' =
        bulk_end number_text
          (codes "bulk delete: ")
          pool.failed
          (length ids)
          answer
          (bulk_delete_pooled p1) in
      (pool.requested ≡ p.selected)
      × ((f : Text → Bool) → length (filter f (items_of log)) ≡ length (filter f p.selected))
      × (p'.selected ≡ [])
      × (p'.bulk_busy ≡ none)
      × (p'.loading ≡ false)
      × (p'.data_ ≡ done.data_)
      × (p'.err ≡ (
          if ltb 0 (failures log)
          then some
              (failed_of number_text (codes "bulk delete: ") (failures log) (length p.selected))
          else done.err))
unfolding bulk_delete_begin bulk_end
bulk_delete-result number_text p p1 ids pool log answer b r e =
    let (ei, ep) = begin-shape p p1 ids b in
    let (requests, answers, failed) = Run-finished ids pool log r e in
    let (fs, fl, fd, fe) = fetched number_text answer p in
    rw (ep, ei)
      (
        requests ∙ ei,
        (λ f. answers f ∙ ap (λ l. length (filter f l)) ei),
        fs,
        refl,
        fl,
        fd,
        rw (failed, fe) refl,
      )

IsSent-draft_tags :
    (parts : List Text) → All (λ t. (is_empty t ≡ false) × (lower (trim t) ≡ t)) (draft_tags parts)
unfolding draft_tags
IsSent-draft_tags [] = tt
IsSent-draft_tags (s ∷ parts) = ground (arith, IsSent-draft_tags parts, lower-trim_idempotent s)

tags-shape :
    (p p1 : HistoryPage) (items : List HistoryItem) (tags : List Text)
    → bulk_add_tags_begin p ≡ some (p1, items, tags)
    → (items ≡ selected_items p)
      × (p1 ≡ record p { bulk_busy = some tagging })
      × (tags ≡ draft_tags (split b',' [] p.bulk_tag_draft))
      × (is_empty tags ≡ false)
unfolding bulk_add_tags_begin
tags-shape p p1 items tags b = ground (arith, b)

tags-fetched :
    (number_text : ℕ → Text) (answer : HistoryAnswer) (p : HistoryPage)
    → let p' =
        fetch_end number_text answer
          (bulk_add_tags_pooled (record p { bulk_busy = some tagging })) in
      (p'.selected ≡ p.selected)
      × (p'.loading ≡ false)
      × (p'.bulk_tag_draft ≡ [])
      × (p'.show_bulk_tag ≡ false)
unfolding fetch_end bulk_add_tags_pooled
tags-fetched number_text (threw m) p = (refl, refl, refl, refl)
tags-fetched number_text (refused status) p = (refl, refl, refl, refl)
tags-fetched number_text (listed l) p = (refl, refl, refl, refl)

-- `bulkAddTags`, where it starts and while nothing else changes the page: the tags of the draft are
-- trimmed, lowercased and not empty, and there is one. When every request is answered and then the
-- list, each selected item of the data was requested once, in order; the tags that its request
-- sent are its own and those of the draft, each once; the draft is cleared and the selection kept.
pub bulk_add_tags-result :
    (number_text : ℕ → Text) (p p1 : HistoryPage) (items : List HistoryItem) (tags : List Text)
    → (pool : Pool HistoryItem) (log : List (HistoryItem × Bool)) (answer : HistoryAnswer)
    → bulk_add_tags_begin p ≡ some (p1, items, tags)
    → Run items (start_pool items) log pool
    → awaited pool.workers ≡ []
    → let p' =
        bulk_end number_text
          (codes "bulk tag: ")
          pool.failed
          (length items)
          answer
          (bulk_add_tags_pooled p1) in
      (is_empty tags ≡ false)
      × All (λ t. (is_empty t ≡ false) × (lower (trim t) ≡ t)) tags
      × (pool.requested ≡ selected_items p)
      × ((it : HistoryItem) (t : Text)
          → Distinct (merged tags it) × (has (merged tags it) t ≡ (has it.tags t || has tags t)))
      × (p'.bulk_tag_draft ≡ [])
      × (p'.show_bulk_tag ≡ false)
      × (p'.selected ≡ p.selected)
      × (p'.bulk_busy ≡ none)
unfolding merged bulk_end
bulk_add_tags-result number_text p p1 items tags pool log answer b r e =
    let (ei, ep, et, some_tag) = tags-shape p p1 items tags b in
    let (requests, answers, failed) = Run-finished items pool log r e in
    let (fs, fl, fd, fh) = tags-fetched number_text answer p in
    (
      some_tag,
      rw et (IsSent-draft_tags (split b',' [] p.bulk_tag_draft)),
      requests ∙ ei,
      (λ it t. (
        Distinct-add_all (it.tags ++ tags) [] tt,
        has-add_all (it.tags ++ tags) [] t ∙ has-append it.tags tags t,
      )),
      rw ep fd,
      rw ep fh,
      rw ep fs,
      refl,
    )
