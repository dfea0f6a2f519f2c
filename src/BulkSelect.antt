-- ===== src/BulkSelect.antt =====
-- web/lib/bulkSelect.ts: the selection of the history page, a set of ids.
pub mod Laws
pub mod Merging
pub mod Refinement
use clawhum.Prelude.{
  ℕ, Bool, true, false, not, ◌&&◌, List, [], ◌∷◌, ◌++◌, if◌then◌else◌, ltb, all, is_empty, length,
}
use clawhum.Prelude.Text.{Text, trim, lower}
use clawhum.Prelude.TextSet.{has, add, delete}
use clawhum.Prelude.TextOrder.{text_le}
use clawhum.Prelude.Sort.{sort_by}

unfoldable pub toggle_id : List Text → Text → List Text
toggle_id prev id = if has prev id then delete prev id else add prev id

unfoldable pub delete_all : List Text → List Text → List Text
delete_all next [] = next
delete_all next (id ∷ ids) = delete_all (delete next id) ids

unfoldable pub add_all : List Text → List Text → List Text
add_all next [] = next
add_all next (id ∷ ids) = add_all (add next id) ids

-- `visibleIds.length > 0 && visibleIds.every((id) => prev.has(id))`
unfoldable pub all_on : List Text → List Text → Bool
all_on prev visible = not (is_empty visible) && all (has prev) visible

unfoldable pub toggle_all : List Text → List Text → List Text
unfolding delete_all add_all all_on
toggle_all prev visible =
    if all_on prev visible then delete_all prev visible else add_all prev visible

-- The loop of `pruneStale` over the old selection.
unfoldable pub prune_from : List Text → List Text → List Text → List Text
prune_from next visible [] = next
prune_from next visible (id ∷ prev) =
    prune_from (if has visible id then add next id else next) visible prev

unfoldable pub prune_stale : List Text → List Text → List Text
unfolding prune_from
prune_stale prev visible = prune_from [] visible prev

pub record SelectionSummary : Type 0 where
  pub count : ℕ
  pub all_selected : Bool
  pub some_selected : Bool

unfoldable pub summarize : List Text → List Text → SelectionSummary
unfolding all_on
summarize prev visible = record {
  count = length prev;
  all_selected = all_on prev visible;
  some_selected = ltb 0 (length prev) && not (all_on prev visible);
}

abbrev pub norm : Text → Text
norm s = lower (trim s)

-- One loop of `mergeTags`.
unfoldable pub add_tags : List Text → List Text → List Text
add_tags out [] = out
add_tags out (t ∷ ts) = add_tags (if is_empty (norm t) then out else add out (norm t)) ts

unfoldable pub merge_tags : List Text → List Text → List Text
unfolding add_tags
merge_tags existing incoming = sort_by text_le (add_tags (add_tags [] existing) incoming)
