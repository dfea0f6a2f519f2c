-- ===== src/Collections.antt =====
-- web/app/collections/page.tsx: the editor of collections and its handlers.
-- A handler is split at its `await`s. `toasts` holds the toasts that the page shows, the newest last.
-- The header that the page adds from the saved key is not modelled here (ApiKey.antt has it).
pub mod Items
pub mod Saving
use clawhum.Prelude.{
  ℕ, zero, suc, ◌+◌, ◌-◌, Bool, true, false, not, ◌&&◌, ◌||◌, Option, none, some, List, [], ◌∷◌,
  ◌++◌, if◌then◌else◌, ltb, leb, ◌==◌, length, is_empty, take, or_else,
}
use clawhum.Prelude.Text.{Text, codes, trim, text_eq}
use clawhum.Prelude.TextSet.{add}

pub record CollectionSummary : Type 0 where
  pub id : Text
  pub created_at : ℕ
  pub updated_at : ℕ
  pub title : Text
  pub note : Option Text
  pub item_count : ℕ
  pub url_path : Text

pub record MatchResult : Type 0 where
  pub track_id : Text
  pub title : Text
  pub artist : Option Text
  pub album : Option Text
  pub score : ℕ
  pub segment_index : Option ℕ

pub record CollectionItem : Type 0 where
  pub label : Text
  pub results : List MatchResult
  pub query_id : Option Text
  pub elapsed_ms : Option ℕ
  pub filename : Option Text
  pub duration_sec : Option ℕ

-- `note` and `items` are read with `||`, so that a missing one is `none`.
pub record CollectionDetail : Type 0 where
  pub id : Text
  pub created_at : ℕ
  pub updated_at : ℕ
  pub title : Text
  pub note : Option Text
  pub items : Option (List CollectionItem)

pub record HistoryItem : Type 0 where
  pub id : Text
  pub created_at : ℕ
  pub query_id : Text
  pub elapsed_ms : ℕ
  pub count : ℕ
  pub results : List MatchResult
  pub filename : Option Text
  pub duration_sec : Option ℕ
  pub name : Option Text
  pub tags : List Text
  pub starred : Bool

abbrev pub max_items : ℕ
max_items = 50

abbrev pub max_title : ℕ
max_title = 80

abbrev pub max_note : ℕ
max_note = 280

-- `a || b`, where `a` is a text, `null` or `undefined`.
abbrev pub or_text : Option Text → Text → Text
or_text none b = b
or_text (some []) b = b
or_text (some (c ∷ s)) b = c ∷ s

unfoldable pub history_to_item : HistoryItem → CollectionItem
history_to_item h = record {
  label = or_text h.name (or_text h.filename (or_text (some h.query_id) (codes "untitled")));
  results = take 5 h.results;
  query_id = some h.query_id;
  elapsed_ms = some h.elapsed_ms;
  filename = h.filename;
  duration_sec = h.duration_sec;
}

pub data PageToast : Type 0 where
  success : Text → PageToast
  failure : Text → PageToast

-- `editing_id` is `none` for a new collection.
pub record Editor : Type 0 where
  pub list : Option (List CollectionSummary)
  pub list_loading : Bool
  pub list_err : Option Text
  pub editing_id : Option Text
  pub title : Text
  pub note : Text
  pub items : List CollectionItem
  pub saving : Bool
  pub save_err : Option Text
  pub copied_id : Option Text
  pub busy_id : Option Text
  pub history : Option (List HistoryItem)
  pub history_err : Option Text
  pub toasts : List PageToast

-- How a request ends: it throws with a message, it has a status that is not ok and a body, or it has
-- the value that the handler reads of its body.
pub data Answer (A : Type 0) : Type 0 where
  threw : Text → Answer A
  refused : ℕ → Text → Answer A
  replied : A → Answer A

abbrev pub show : PageToast → Editor → Editor
show t p = record p { toasts = p.toasts ++ t ∷ [] }

unfoldable pub reset_editor : Editor → Editor
reset_editor p = record p { editing_id = none; title = []; note = []; items = []; save_err = none }

-- `loadForEdit`: its `setSaveErr` before the request, and what the answer changes. A body that does
-- not parse throws.
unfoldable pub load_begin : Editor → Editor
load_begin p = record p { save_err = none }

unfoldable pub load_end : Text → Answer CollectionDetail → Editor → Editor
load_end cid (threw m) p = show (failure m) p
load_end cid (refused status body) p = show (failure (codes "could not load " ++ cid)) p
load_end cid (replied d) p = record p {
  editing_id = some d.id;
  title = d.title;
  note = or_else d.note [];
  items = or_else d.items [];
}

module _ (number_text : ℕ → Text) where
  unfoldable pub add_from_history : HistoryItem → Editor → Editor
  unfolding history_to_item
  add_from_history h p =
      if leb max_items (length p.items)
      then show (failure (codes "max " ++ (number_text max_items ++ codes " items per collection")))
          p
      else record p { items = p.items ++ history_to_item h ∷ [] }

-- `prev.filter((_, i) => i !== idx)`
abbrev pub drop_at {ℓ} : {A : Type ℓ} → ℕ → List A → List A
drop_at idx [] = []
drop_at zero (x ∷ xs) = xs
drop_at (suc idx) (x ∷ xs) = x ∷ drop_at idx xs

unfoldable pub remove_item : ℕ → Editor → Editor
remove_item idx p = record p { items = drop_at idx p.items }

-- The exchange of the elements at `i` and `i + 1`.
abbrev pub swap_at {ℓ} : {A : Type ℓ} → ℕ → List A → List A
swap_at i [] = []
swap_at zero (x ∷ []) = x ∷ []
swap_at zero (x ∷ y ∷ xs) = y ∷ x ∷ xs
swap_at (suc i) (x ∷ xs) = x ∷ swap_at i xs

pub data Direction : Type 0 where
  up down : Direction

-- `moveItem(idx, dir)`, where `idx` is the index of an item, as the page calls it; `dir` is -1 for
-- `up` and 1 for `down`.
unfoldable pub move_item : ℕ → Direction → Editor → Editor
move_item zero up p = p
move_item (suc i) up p =
    if leb (length p.items) i then p else record p { items = swap_at i p.items }
move_item idx down p =
    if leb (length p.items) (suc idx) then p else record p { items = swap_at idx p.items }

abbrev pub rename_at : ℕ → Text → List CollectionItem → List CollectionItem
rename_at idx label [] = []
rename_at zero label (it ∷ its) = record it { label = label } ∷ its
rename_at (suc idx) label (it ∷ its) = it ∷ rename_at idx label its

unfoldable pub rename_item : ℕ → Text → Editor → Editor
rename_item idx label p = record p { items = rename_at idx label p.items }

-- `usedHistoryIds`
unfoldable pub used_history_ids : List Text → List CollectionItem → List Text
used_history_ids s [] = s
used_history_ids s (it ∷ its) = elim it.query_id [
  | none ↦ used_history_ids s its
  | some q ↦ used_history_ids (if is_empty q then s else add s q) its
]
