-- ===== src/BulkSelect/Laws.antt =====
-- What the selection holds after each operation of web/lib/bulkSelect.ts.
use clawhum.Prelude.{
  false, not, ◌&&◌, ◌||◌, List, [], ◌∷◌, if◌then◌else◌, ltb, length, ◌≡◌, refl, arith,
}
use clawhum.Prelude.Text.{Text, text_eq, eq_iff, text_eq_comm}
use clawhum.Prelude.TextSet.{
  has, add, delete, has-add, has-delete, Distinct, Distinct-add, Distinct-filter,
}
use clawhum.BulkSelect.{
  toggle_id, delete_all, add_all, all_on, toggle_all, prune_from, prune_stale, summarize,
}

has-toggle_once :
    (prev : List Text) (id u : Text)
    → has (toggle_id prev id) u ≡ (if text_eq id u then not (has prev u) else has prev u)
unfolding toggle_id
has-toggle_once prev id u =
    ground (arith, has-add prev id u, has-delete prev id u, eq_iff id u, eq_iff u id)

-- Toggling an id of a set changes whether that id is selected and nothing else; toggling it twice
-- gives back the selection; the selection stays a set.
pub has-toggle_id :
    (prev : List Text) (id : Text)
    → Distinct prev
    → ((u : Text)
        → has (toggle_id prev id) u ≡ (if text_eq id u then not (has prev u) else has prev u))
      × ((u : Text) → has (toggle_id (toggle_id prev id) id) u ≡ has prev u)
      × Distinct (toggle_id prev id)
has-toggle_id prev id d = (
  has-toggle_once prev id,
  (λ u. ground (arith, has-toggle_once (toggle_id prev id) id u, has-toggle_once prev id u)),
  distinct,
)
  where
    distinct : Distinct (toggle_id prev id)
    distinct =
        unfold toggle_id in
        ground
          (arith, Distinct-add prev id d, Distinct-filter (λ (v : Text). not (text_eq v id)) prev d)

has-delete_all :
    (ids next : List Text) (u : Text)
    → has (delete_all next ids) u ≡ (has next u && not (has ids u))
unfolding delete_all
has-delete_all [] next u = ground arith
has-delete_all (id ∷ ids) next u =
    ground (arith, has-delete_all ids (delete next id) u, has-delete next id u, text_eq_comm id u)

pub has-add_all :
    (ids next : List Text) (u : Text) → has (add_all next ids) u ≡ (has next u || has ids u)
unfolding add_all
has-add_all [] next u = ground arith
has-add_all (id ∷ ids) next u = ground (arith, has-add_all ids (add next id) u, has-add next id u)

pub Distinct-add_all : (ids next : List Text) → Distinct next → Distinct (add_all next ids)
unfolding add_all
Distinct-add_all [] next d = d
Distinct-add_all (id ∷ ids) next d = Distinct-add_all ids (add next id) (Distinct-add next id d)

-- If some ids are visible and all of them are selected, `toggleAll` deselects exactly them;
-- otherwise it selects them all and keeps what was selected.
pub has-toggle_all :
    (prev visible : List Text) (u : Text)
    → has (toggle_all prev visible) u ≡ (
        if all_on prev visible
        then has prev u && not (has visible u)
        else has prev u || has visible u)
unfolding toggle_all
has-toggle_all prev visible u =
    ground (arith, has-delete_all visible prev u, has-add_all visible prev u)

has-prune_from :
    (visible prev next : List Text) (u : Text)
    → has (prune_from next visible prev) u ≡ (has next u || (has prev u && has visible u))
unfolding prune_from
has-prune_from visible [] next u = ground arith
has-prune_from visible (id ∷ prev) next u = ground (
  arith,
  has-prune_from visible prev (if has visible id then add next id else next) u,
  has-add next id u,
  eq_iff id u,
)

Distinct-prune_from :
    (visible prev next : List Text) → Distinct next → Distinct (prune_from next visible prev)
unfolding prune_from
Distinct-prune_from visible [] next d = d
Distinct-prune_from visible (id ∷ prev) next d =
    Distinct-prune_from visible prev (if has visible id then add next id else next)
      (ground (arith, Distinct-add next id d))

-- `pruneStale` keeps exactly the selected ids that are still visible, each once.
pub has-prune_stale :
    (prev visible : List Text)
    → ((u : Text) → has (prune_stale prev visible) u ≡ (has prev u && has visible u))
      × Distinct (prune_stale prev visible)
unfolding prune_stale
has-prune_stale prev visible =
    (λ u. has-prune_from visible prev [] u, Distinct-prune_from visible prev [] tt)

-- The summary counts the selection; it says "all" or "some" exactly when anything is selected, and
-- never both.
pub summarize_flags :
    (prev visible : List Text)
    → let s = summarize prev visible in
      (s.count ≡ length prev)
      × ((s.all_selected || s.some_selected) ≡ ltb 0 s.count)
      × ((s.all_selected && s.some_selected) ≡ false)
unfolding summarize
summarize_flags [] [] = (refl, refl, refl)
summarize_flags [] (v ∷ visible) = (refl, refl, refl)
summarize_flags (p ∷ prev) visible = ground arith
