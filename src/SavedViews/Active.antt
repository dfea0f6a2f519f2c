-- ===== src/SavedViews/Active.antt =====
-- When web/components/SavedViews.tsx takes a saved view for the active one.
use clawhum.Prelude.{
  ℕ, Bool, true, false, none, some, List, [], ◌∷◌, ◌++◌, find, is_empty, bool_eq, ◌≡◌, ◌≢◌, refl,
  arith,
}
use clawhum.Prelude.Text.{Text, text_eq_refl, trim, lower}
use clawhum.Prelude.TextTrim.{trim_idempotent, lower-trim_idempotent}
use clawhum.SavedViews.{
  SortKey, ViewFilters, ViewItem, same_sort, filters_equal, Panel, done, listed, sent_filters,
  active_view, can_save, load, change, save,
}

same_sort_refl : (k : SortKey) → same_sort k k ≡ true
unfolding same_sort
same_sort_refl SortKey.recent = refl
same_sort_refl SortKey.oldest = refl
same_sort_refl SortKey.name = refl
same_sort_refl SortKey.results = refl
same_sort_refl SortKey.top_score = refl

bool_eq_refl : (b : Bool) → bool_eq b b ≡ true
bool_eq_refl true = refl
bool_eq_refl false = refl

sent_filters-equal : (f : ViewFilters) → filters_equal (sent_filters f) f ≡ true
unfolding filters_equal sent_filters
sent_filters-equal f = rw (
  trim_idempotent f.q,
  lower-trim_idempotent f.tag,
  text_eq_refl (trim f.q),
  text_eq_refl (lower (trim f.tag)),
  same_sort_refl f.sort,
  bool_eq_refl f.starred,
)

find-middle :
    (p : ViewItem → Bool) (before after : List ViewItem) (v : ViewItem)
    → p v ≡ true
    → find p (before ++ v ∷ after) ≢ none
find-middle p [] after v h = ground arith
find-middle p (u ∷ before) after v h = ground (arith, find-middle p before after v)

-- With a key and a nonempty name: once the filters in use are saved and the server lists the view
-- that it was sent, anywhere in its list, the panel is idle with no error, one of its views is
-- active, and the same filters cannot be saved again.
pub can_save-save :
    (number_text : ℕ → Text) (current : ViewFilters) (p : Panel) (v : ViewItem)
    (before after : List ViewItem)
    → is_empty (trim p.draft) ≡ false
    → v.filters ≡ sent_filters current
    → let q = save number_text true done (listed (some (before ++ v ∷ after))) p in
      (q.busy ≡ false)
      × (q.err ≡ none)
      × (q.naming ≡ false)
      × (active_view current q ≢ none)
      × (can_save true current q ≡ false)
unfolding save change load active_view can_save
can_save-save number_text current p v before after named sent =
    let found =
      find-middle (λ u. filters_equal u.filters current) before after v
        (rw sent (sent_filters-equal current)) in
    rw named (refl, refl, refl, found, ground (arith, found))
