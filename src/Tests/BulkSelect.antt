-- ===== src/Tests/BulkSelect.antt =====
-- The selection of web/lib/bulkSelect.ts on concrete inputs.
use clawhum.Prelude.{List, [], ◌∷◌, ◌≡◌, refl}
use clawhum.Prelude.Text.{Text, codes, text_eq}
use clawhum.Prelude.TextSet.{has, Distinct}
use clawhum.BulkSelect.{toggle_id, toggle_all, prune_stale, summarize}
use clawhum.BulkSelect.Refinement.{toggled, toggled_all, pruned, all_in, operations-refine}

abbrev selected : List Text
selected = codes "a" ∷ codes "b" ∷ []

abbrev visible : List Text
visible = codes "b" ∷ codes "c" ∷ []

selected-Distinct : Distinct selected
unfolding text_eq
selected-Distinct = (refl, (refl, tt))

operations-refine_example :
    (has (toggle_id selected (codes "b")) ≡ toggled (has selected) (codes "b"))
    × Distinct (toggle_id selected (codes "b"))
    × (has (toggle_all selected visible) ≡ toggled_all (has selected) visible)
    × Distinct (toggle_all selected visible)
    × (has (prune_stale selected visible) ≡ pruned (has selected) visible)
    × Distinct (prune_stale selected visible)
    × ((summarize selected visible).all_selected ≡ all_in (has selected) visible)
operations-refine_example = operations-refine selected visible (codes "b") selected-Distinct
