-- ===== src/HistoryPage/Selection.antt =====
-- The selection of web/app/history/page.tsx against web/lib/bulkSelect.ts.
use mathlib.Core.List.{append-nil, append_assoc}
use clawhum.Prelude.{
  Bool, true, false, not, ◌&&◌, inl, inr, none, some, List, [], ◌∷◌, ◌++◌, if◌then◌else◌, ltb, ◌==◌,
  ==_iff, all, filter, length, ◌≡◌, refl, sym, ◌∙◌, ap, arith, Bool-cases, Option-cases,
  length-filter-le,
}
use clawhum.Prelude.Text.{Text, eq_iff, text_eq_refl}
use clawhum.Prelude.TextSet.{has, add, Distinct, has-append}
use clawhum.BulkSelect
use clawhum.BulkSelect.{prune_stale, prune_from, summarize, toggle_id, all_on, delete_all, add_all}
use clawhum.HistoryPage.{
  HistoryPage, HistoryList, visible_ids, select_visible, drop_stale, keep_visible, all_selected,
  some_selected, toggle_one, toggle_all,
}

-- `prune_from` on a set of ids: what is kept, behind what is there already.
prune_from-filter :
    (visible prev next : List Text)
    → Distinct prev
    → ((u : Text) → has prev u ≡ true → has next u ≡ false)
    → prune_from next visible prev ≡ next ++ filter (has visible) prev
unfolding prune_from
prune_from-filter visible [] next d fresh = sym (append-nil next)
prune_from-filter visible (id ∷ prev) next (e, d) fresh = elim (Bool-cases (has visible id)) [
  | inl v ↦
      rw (v, fresh id (ground (arith, text_eq_refl id)))
        (prune_from-filter visible prev (next ++ id ∷ []) d
            (λ u h. ground (arith, has-append next (id ∷ []) u, fresh u, eq_iff id u, h))
          ∙ append_assoc next (id ∷ []) (filter (has visible) prev))
  | inr v ↦ rw v (prune_from-filter visible prev next d (λ u h. fresh u (ground (arith, h))))
]

keep_visible-prune_from :
    (visible prev next : List Text) → keep_visible next visible prev ≡ prune_from next visible prev
unfolding keep_visible prune_from
keep_visible-prune_from visible [] next = refl
keep_visible-prune_from visible (id ∷ prev) next =
    keep_visible-prune_from visible prev (if has visible id then add next id else next)

filter-whole :
    (p : Text → Bool) (xs : List Text) → length (filter p xs) ≡ length xs → filter p xs ≡ xs
filter-whole p [] h = refl
filter-whole p (x ∷ xs) h = ground (arith, filter-whole p xs, length-filter-le p xs)

whole :
    (n prev : List Text)
    → (length n ≡ length prev → n ≡ prev)
    → (if length n == length prev then prev else n) ≡ n
whole n prev h = ground (arith, ==_iff (length n) (length prev))

-- Keeping the old set where the sizes agree changes nothing.
stale-agrees :
    (visible prev : List Text)
    → Distinct prev
    → (if length (keep_visible [] visible prev) == length prev
        then prev
        else keep_visible [] visible prev)
      ≡ prune_stale prev visible
unfolding prune_stale
stale-agrees visible prev d =
    let e = prune_from-filter visible prev [] d (λ u h. refl) in
    rw (keep_visible-prune_from visible prev [], e)
      (whole (filter (has visible) prev) prev (filter-whole (has visible) prev))

toggle-agrees :
    (visible prev : List Text)
    → (if all (has prev) visible then delete_all prev visible else add_all prev visible)
      ≡ BulkSelect.toggle_all prev visible
unfolding BulkSelect.toggle_all all_on delete_all add_all
toggle-agrees [] prev = refl
toggle-agrees (id ∷ visible) prev = refl

all-agrees :
    (visible prev : List Text)
    → (ltb 0 (length visible) && all (has prev) visible) ≡ all_on prev visible
unfolding all_on
all-agrees [] prev = refl
all-agrees (id ∷ visible) prev = ground arith

visible-listed :
    (p : HistoryPage) (l : HistoryList) → p.data_ ≡ some l → visible_ids p ≡ select_visible l.items
unfolding visible_ids
visible-listed p l e = rw (e, visible_ids) refl

-- The page's own copies of the operations of bulkSelect.ts do what those do, on a selection without
-- repetitions: toggling one id, toggling all visible ids, dropping the ids that are not visible in
-- the data (nothing is dropped before there is data), and the two flags.
pub selection-agrees :
    (p : HistoryPage) (id : Text)
    → Distinct p.selected
    → ((toggle_one id p).selected ≡ toggle_id p.selected id)
      × ((toggle_all p).selected ≡ BulkSelect.toggle_all p.selected (visible_ids p))
      × ((drop_stale p).selected
          ≡ (elim p.data_ [ none ↦ p.selected | some l ↦ prune_stale p.selected (visible_ids p) ]))
      × (all_selected p ≡ (summarize p.selected (visible_ids p)).all_selected)
      × (some_selected p ≡ (summarize p.selected (visible_ids p)).some_selected)
unfolding toggle_one toggle_id toggle_all all_selected some_selected summarize drop_stale
selection-agrees p id d = (
  refl,
  toggle-agrees (visible_ids p) p.selected,
  elim (Option-cases p.data_) [
    | inl e ↦ rw (e, drop_stale) refl
    | inr (l, e) ↦
        rw (e, drop_stale, visible-listed p l e)
          (stale-agrees (select_visible l.items) p.selected d)
  ],
  all-agrees (visible_ids p) p.selected,
  ap (λ b. ltb 0 (length p.selected) && not b) (all-agrees (visible_ids p) p.selected),
)
