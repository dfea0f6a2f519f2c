-- ===== src/BulkSelect/Refinement.antt =====
-- web/lib/bulkSelect.ts against its specification: operations on sets of ids, which know neither the
-- order of a selection nor how it is stored.
use mathlib.Core.Path.{fun_ext}
use clawhum.Prelude.{
  Bool, not, ◌&&◌, ◌||◌, List, [], ◌∷◌, if◌then◌else◌, all, is_empty, ◌≡◌, arith, refl,
}
use clawhum.Prelude.Text.{Text, text_eq}
use clawhum.Prelude.TextSet.{has, delete, Distinct, Distinct-filter}
use clawhum.BulkSelect.{toggle_id, delete_all, all_on, toggle_all, prune_stale, summarize}
use clawhum.BulkSelect.Laws.{has-toggle_id, has-toggle_all, has-prune_stale, Distinct-add_all}

-- A set of ids.
abbrev pub IdSet : Type 0
IdSet = Text → Bool

abbrev pub toggled : IdSet → Text → IdSet
toggled s id u = if text_eq id u then not (s u) else s u

abbrev pub all_in : IdSet → List Text → Bool
all_in s visible = not (is_empty visible) && all s visible

abbrev pub toggled_all : IdSet → List Text → IdSet
toggled_all s visible u =
    if all_in s visible then s u && not (has visible u) else s u || has visible u

abbrev pub pruned : IdSet → List Text → IdSet
pruned s visible u = s u && has visible u

Distinct-delete_all : (ids next : List Text) → Distinct next → Distinct (delete_all next ids)
unfolding delete_all
Distinct-delete_all [] next d = d
Distinct-delete_all (id ∷ ids) next d =
    Distinct-delete_all ids (delete next id)
      (Distinct-filter (λ (v : Text). not (text_eq v id)) next d)

Distinct-toggle_all :
    (prev visible : List Text) → Distinct prev → Distinct (toggle_all prev visible)
unfolding toggle_all
Distinct-toggle_all prev visible d =
    ground (arith, Distinct-delete_all visible prev d, Distinct-add_all visible prev d)

-- The operations on selections implement those on sets: on a list without repetitions, the list
-- that each returns has no repetitions and holds the set that the specification says, and the flag
-- "all selected" is that of the set. So two selections of the same set stay alike.
pub operations-refine :
    (prev visible : List Text) (id : Text)
    → Distinct prev
    → (has (toggle_id prev id) ≡ toggled (has prev) id)
      × Distinct (toggle_id prev id)
      × (has (toggle_all prev visible) ≡ toggled_all (has prev) visible)
      × Distinct (toggle_all prev visible)
      × (has (prune_stale prev visible) ≡ pruned (has prev) visible)
      × Distinct (prune_stale prev visible)
      × ((summarize prev visible).all_selected ≡ all_in (has prev) visible)
unfolding summarize all_on
operations-refine prev visible id d = (
  fun_ext (has-toggle_id prev id d).0,
  (has-toggle_id prev id d).2,
  fun_ext (has-toggle_all prev visible),
  Distinct-toggle_all prev visible d,
  fun_ext (has-prune_stale prev visible).0,
  (has-prune_stale prev visible).1,
  refl,
)
