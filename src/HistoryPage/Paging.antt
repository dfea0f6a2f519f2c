-- ===== src/HistoryPage/Paging.antt =====
-- The paging of web/app/history/page.tsx, and the tags that it offers.
use clawhum.Prelude.{
  ℕ, ◌+◌, ◌-◌, ◌/◌, ◌%◌, ◌≤◌, ◌<◌, max, ◌||◌, none, some, List, [], ◌∷◌, if◌then◌else◌, ltb, leb,
  ◌==◌, any, ◌≡◌, ◌⊎◌, arith,
}
use clawhum.Prelude.Text.{Text}
use clawhum.Prelude.TextSet.{has, Distinct}
use clawhum.Prelude.TextOrder.{text_le, text_le-total, text_le_trans, has-sort_by, Distinct-sort_by}
use clawhum.Prelude.Sort.{sort_by, IsSorted, sort_by-IsSorted}
use clawhum.BulkSelect.{add_all}
use clawhum.HistoryPage.{HistoryItem, HistoryList, HistoryPage, page_size}
use clawhum.BulkSelect.Laws.{has-add_all, Distinct-add_all}

unfoldable pub total_of : HistoryPage → ℕ
total_of p = elim p.data_ [ none ↦ 0 | some l ↦ l.total ]

-- `Math.max(1, Math.ceil(total / PAGE))`
unfoldable pub pages : HistoryPage → ℕ
unfolding total_of
pages p = max 1 ((total_of p + (page_size - 1)) / page_size)

unfoldable pub page : HistoryPage → ℕ
page p = p.offset / page_size + 1

-- The buttons "prev" and "next": a disabled button does nothing.
unfoldable pub prev_page : HistoryPage → HistoryPage
prev_page p = if p.offset == 0 then p else record p { offset = p.offset - page_size }

unfoldable pub next_page : HistoryPage → HistoryPage
unfolding total_of
next_page p =
    if leb (total_of p) (p.offset + page_size)
    then p
    else record p { offset = p.offset + page_size }

unfoldable pub add_item_tags : List Text → List HistoryItem → List Text
unfolding add_all
add_item_tags tags [] = tags
add_item_tags tags (it ∷ items) = add_item_tags (add_all tags it.tags) items

unfoldable pub tag_options : HistoryPage → List Text
unfolding add_item_tags
tag_options p = elim p.data_ [ none ↦ [] | some l ↦ sort_by text_le (add_item_tags [] l.items) ]

-- The offset is the start of a page of the list.
abbrev pub IsOnPage : HistoryPage → Type 0
IsOnPage p = (p.offset % page_size ≡ 0) × ((p.offset < total_of p) ⊎ (p.offset ≡ 0))

-- From the start of a page of the list, "prev" and "next" lead to such starts; "next" goes one page
-- on except on the last page, "prev" one page back except on the first, and the page shown is one
-- of the pages counted.
pub IsOnPage-buttons :
    (p : HistoryPage)
    → IsOnPage p
    → IsOnPage (next_page p)
      × IsOnPage (prev_page p)
      × (page p ≤ pages p)
      × (page (next_page p) ≡ (if ltb (page p) (pages p) then page p + 1 else page p))
      × (page (prev_page p) ≡ (if ltb 1 (page p) then page p - 1 else page p))
unfolding next_page prev_page page pages total_of
IsOnPage-buttons p h = ground arith

has-add_item_tags :
    (items : List HistoryItem) (tags : List Text) (t : Text)
    → has (add_item_tags tags items) t
      ≡ (has tags t || any (λ (it : HistoryItem). has it.tags t) items)
unfolding add_item_tags
has-add_item_tags [] tags t = ground arith
has-add_item_tags (it ∷ items) tags t =
    ground (arith, has-add_item_tags items (add_all tags it.tags) t, has-add_all it.tags tags t)

Distinct-add_item_tags :
    (items : List HistoryItem) (tags : List Text)
    → Distinct tags
    → Distinct (add_item_tags tags items)
unfolding add_item_tags
Distinct-add_item_tags [] tags d = d
Distinct-add_item_tags (it ∷ items) tags d =
    Distinct-add_item_tags items (add_all tags it.tags) (Distinct-add_all it.tags tags d)

-- The tags offered for the fetched list are sorted and distinct, and they are the tags of its items.
pub tag_options-IsSorted :
    (p : HistoryPage) (l : HistoryList)
    → p.data_ ≡ some l
    → IsSorted text_le (tag_options p)
      × Distinct (tag_options p)
      × ((t : Text) → has (tag_options p) t ≡ any (λ (it : HistoryItem). has it.tags t) l.items)
unfolding tag_options
tag_options-IsSorted p l e =
    rw (tag_options, e)
      (
        sort_by-IsSorted text_le text_le-total text_le_trans _,
        Distinct-sort_by text_le _ (Distinct-add_item_tags l.items [] tt),
        λ t. ground (
          arith,
          has-sort_by text_le (add_item_tags [] l.items) t,
          has-add_item_tags l.items [] t,
        ),
      )
