-- ===== src/Collections/Saving.antt =====
-- `save`, `remove`, `fetchList` and `fetchHistory` of web/app/collections/page.tsx.
use clawhum.Prelude.{
  ℕ, Bool, true, false, not, ◌&&◌, ◌||◌, Option, none, some, List, [], ◌∷◌, ◌++◌, if◌then◌else◌,
  ltb, leb, ◌==◌, length, is_empty, take, or_else, ◌≡◌, arith,
}
use clawhum.Prelude.Text.{Text, codes, trim, text_eq}
use clawhum.Collections.{
  CollectionSummary, CollectionItem, HistoryItem, Editor, Answer, threw, refused, replied, success,
  failure, show, or_text, max_title, max_note, reset_editor,
}

-- The body of the request of `save`, and the collection that it changes, if any.
pub record SaveRequest : Type 0 where
  pub target : Option Text
  pub title : Text
  pub note : Option Text
  pub items : List CollectionItem

-- `s || null`
abbrev pub or_null : Text → Option Text
or_null [] = none
or_null (c ∷ s) = some (c ∷ s)

-- `fetchList` up to its request.
unfoldable pub fetch_list_begin : Editor → Editor
fetch_list_begin p = record p { list_loading = true; list_err = none }

unfoldable pub remove_begin : Bool → Text → Editor → Option Editor
remove_begin confirmed cid p = if confirmed then some (record p { busy_id = some cid }) else none

abbrev pub is_target : Option Text → Text → Bool
is_target none cid = false
is_target (some t) cid = text_eq t cid

-- The conditions under which the form may be sent.
abbrev pub is_sendable : Editor → Bool
is_sendable p =
    not (is_empty (trim p.title))
    && leb (length (trim p.title)) max_title
    && leb (length p.note) max_note
    && not (is_empty p.items)

abbrev pub is_some {ℓ} : {A : Type ℓ} → Option A → Bool
is_some none = false
is_some (some a) = true

-- The form: the collection edited, its title, its note and its items.
abbrev pub draft : Editor → Option Text × Text × Text × List CollectionItem
draft p = (p.editing_id, p.title, p.note, p.items)

abbrev pub is_replied : Answer Unit → Bool
is_replied (threw m) = false
is_replied (refused status body) = false
is_replied (replied _) = true

module _ (number_text : ℕ → Text) where
  abbrev pub stop_save : Text → Editor → Editor × Option SaveRequest
  stop_save m p = (record p { save_err = some m }, none)

  -- `save` up to its request, if it sends one.
  unfoldable pub save_begin : Editor → Editor × Option SaveRequest
  save_begin p =
      let trimmed = trim p.title in
      if is_empty trimmed
      then stop_save (codes "title is required") p
      else if ltb max_title (length trimmed)
      then stop_save (codes "title too long (max " ++ (number_text max_title ++ codes ")")) p
      else if ltb max_note (length p.note)
      then stop_save (codes "note too long (max " ++ (number_text max_note ++ codes ")")) p
      else if is_empty p.items
      then stop_save (codes "add at least one item from your history") p
      else (
        record p { save_err = none; saving = true },
        some (record {
          target = p.editing_id;
          title = trimmed;
          note = or_null (trim p.note);
          items = p.items;
        }),
      )

  abbrev pub request_failed : ℕ → Text → Text
  request_failed status body =
      or_text (some (take 240 body)) (codes "request failed (" ++ (number_text status ++ codes ")"))

  -- `fetchList` from the answer on: the value is `data.collections`.
  unfoldable pub fetch_list_end : Answer (Option (List CollectionSummary)) → Editor → Editor
  fetch_list_end (threw m) p = record p { list_err = some m; list_loading = false }
  fetch_list_end (refused status body) p =
      if status == 401
      then record p {
        list = none;
        list_err = some (codes "api key required. set one on the settings page.");
        list_loading = false;
      }
      else record p {
        list_err = some (request_failed status body);
        list = none;
        list_loading = false;
      }
  fetch_list_end (replied l) p = record p { list = some (or_else l []); list_loading = false }

  -- `save` from the answer on: up to the request of `fetchList` where it succeeds. `target` is the
  -- collection edited when it began.
  unfoldable pub save_end : Option Text → Answer Unit → Editor → Editor
  unfolding reset_editor fetch_list_begin
  save_end target (threw m) p = record p { save_err = some m; saving = false }
  save_end target (refused status body) p = record p {
    save_err = some (
        if status == 401
        then codes "api key required. set one on the settings page."
        else request_failed status body);
    saving = false;
  }
  save_end target (replied _) p = fetch_list_begin (
      reset_editor (
        show
          (success (elim target [
            | none ↦ codes "collection created"
            | some cid ↦ codes "collection updated"
          ]))
          p))

  -- The end of `save` and of `remove`, behind the answer to `fetchList`.
  unfoldable pub save_done : Answer (Option (List CollectionSummary)) → Editor → Editor
  unfolding fetch_list_end
  save_done answer p = record (fetch_list_end answer p) { saving = false }

  -- `remove` from the answer on. A request that throws is not caught: only `busyId` is cleared.
  unfoldable pub remove_end : Option Text → Text → Answer Unit → Editor → Editor
  unfolding reset_editor fetch_list_begin
  remove_end editing cid (threw m) p = record p { busy_id = none }
  remove_end editing cid (refused status body) p =
      record (show (failure (codes "delete failed (" ++ (number_text status ++ codes ")"))) p) {
        busy_id = none;
      }
  remove_end editing cid (replied _) p =
      let shown = show (success (codes "collection deleted")) p in
      fetch_list_begin (if is_target editing cid then reset_editor shown else shown)

  unfoldable pub remove_done : Answer (Option (List CollectionSummary)) → Editor → Editor
  unfolding fetch_list_end
  remove_done answer p = record (fetch_list_end answer p) { busy_id = none }

  -- `fetchHistory`: the value is `data.history`.
  unfoldable pub fetch_history_end : Answer (Option (List HistoryItem)) → Editor → Editor
  fetch_history_end (threw m) p = record p { history_err = some m }
  fetch_history_end (refused status body) p =
      if status == 401
      then record p {
        history_err = some (codes "api key required to load history.");
        history = none;
      }
      else record p {
        history_err = some (codes "history request failed (" ++ (number_text status ++ codes ")"));
      }
  fetch_history_end (replied l) p = record p { history = some (or_else l []) }

  -- `save` sends a request exactly when the form may be sent. Then the request holds the trimmed
  -- title, the items, and the trimmed note unless it is empty, and the page waits; otherwise the
  -- page shows an error and changes nothing else.
  pub save_begin-sends :
      (p : Editor)
      → let r = save_begin p in
        (is_some r.1 ≡ is_sendable p)
        × (r.0.saving ≡ (is_sendable p || p.saving))
        × (is_some r.0.save_err ≡ not (is_sendable p))
        × (r.1 ≡ (
            if is_sendable p
            then some (record {
              target = p.editing_id;
              title = trim p.title;
              note = or_null (trim p.note);
              items = p.items;
            })
            else none))
        × (r.0 ≡ record p { saving = r.0.saving; save_err = r.0.save_err })
  unfolding save_begin
  save_begin-sends p = ground arith

  -- Where `save` has sent its request, and nothing else changes the page, it ends with the page
  -- idle: if the server took the collection, the form is empty and shows no error, whatever the
  -- answer to the list is; if not, the form is as it was and shows an error.
  pub save_end-draft :
      (p p1 : Editor) (r : SaveRequest) (answer : Answer Unit)
      → (listed : Answer (Option (List CollectionSummary))) → save_begin p ≡ (p1, some r)
      → let p2 = save_end r.target answer p1 in
        let p3 = if is_replied answer then save_done listed p2 else p2 in
        (p3.saving ≡ false)
        × (draft p3 ≡ (if is_replied answer then (none, [], [], []) else draft p))
        × (is_some p3.save_err ≡ not (is_replied answer))
  unfolding save_begin save_end save_done fetch_list_end reset_editor fetch_list_begin
  save_end-draft p p1 r (threw m) listed b = ground (arith, b)
  save_end-draft p p1 r (refused status body) listed b = ground (arith, b)
  save_end-draft p p1 r (replied u) (threw m) b = ground (arith, b)
  save_end-draft p p1 r (replied u) (refused status body) b = ground (arith, b)
  save_end-draft p p1 r (replied u) (replied l) b = ground (arith, b)
