-- ===== src/BulkSelect/Merging.antt =====
-- What `mergeTags` of web/lib/bulkSelect.ts returns.
use clawhum.Prelude.{
  Bool, false, not, ◌&&◌, ◌||◌, List, [], ◌∷◌, if◌then◌else◌, is_empty, ◌≡◌, arith,
}
use clawhum.Prelude.Text.{Text, text_eq}
use clawhum.Prelude.TextSet.{has, add, has-add, Distinct, Distinct-add}
use clawhum.Prelude.TextOrder.{text_le, text_le-total, text_le_trans, has-sort_by, Distinct-sort_by}
use clawhum.Prelude.Sort.{IsSorted, sort_by-IsSorted}
use clawhum.BulkSelect.{norm, add_tags, merge_tags}

-- Does a tag of the list, trimmed and lowercased, read `v`, and is it not empty?
abbrev pub names_norm : Text → List Text → Bool
names_norm v [] = false
names_norm v (t ∷ ts) = (not (is_empty (norm t)) && text_eq (norm t) v) || names_norm v ts

has-add_tags :
    (v : Text) (out ts : List Text) → has (add_tags out ts) v ≡ (has out v || names_norm v ts)
unfolding add_tags
has-add_tags v out [] = ground arith
has-add_tags v out (t ∷ ts) = ground (
  arith,
  has-add_tags v (if is_empty (norm t) then out else add out (norm t)) ts,
  has-add out (norm t) v,
)

Distinct-add_tags : (out ts : List Text) → Distinct out → Distinct (add_tags out ts)
unfolding add_tags
Distinct-add_tags out [] d = d
Distinct-add_tags out (t ∷ ts) d =
    Distinct-add_tags (if is_empty (norm t) then out else add out (norm t)) ts
      (ground (arith, Distinct-add out (norm t) d))

-- The merged tags are sorted and distinct, and they are exactly the nonempty normal forms of the
-- tags of the two lists.
pub merge_tags-IsSorted :
    (existing incoming : List Text)
    → IsSorted text_le (merge_tags existing incoming)
      × Distinct (merge_tags existing incoming)
      × ((v : Text)
          → has (merge_tags existing incoming) v ≡ (names_norm v existing || names_norm v incoming))
unfolding merge_tags
merge_tags-IsSorted existing incoming = (
  sort_by-IsSorted text_le text_le-total text_le_trans _,
  Distinct-sort_by text_le _
      (Distinct-add_tags (add_tags [] existing) incoming (Distinct-add_tags [] existing tt)),
  λ v. ground (
    arith,
    has-sort_by text_le (add_tags (add_tags [] existing) incoming) v,
    has-add_tags v (add_tags [] existing) incoming,
    has-add_tags v [] existing,
  ),
)
