-- ===== src/History.antt =====
-- web/lib/history.ts, the stored matches: load, save, look up, delete, clear and update.
-- `Browser` is what these functions act on: whether there is a window, what localStorage holds under
-- the key, and the history records posted to the server. `fits` says whether `setItem` accepts a
-- list; where it does not, `setItem` throws.
pub mod Saving
pub mod Editing
use clawhum.Prelude.{
  ℕ, zero, suc, Bool, true, false, not, Option, none, some, List, [], ◌∷◌, ◌++◌, map, if◌then◌else◌,
  ◌==◌, ltb, length, filter, find, or_else, is_empty,
}
use clawhum.Prelude.Text.{Text, text_eq, trim}
use clawhum.Model.{StoredMatch, MatchResult}
use clawhum.Tags.{normalise_tags}

-- `localStorage.getItem(KEY)`: null or empty, text that `JSON.parse` refuses or that holds no
-- array, or an array of matches.
pub data Slot : Type 0 where
  absent : Slot
  unreadable : Slot
  holds : List StoredMatch → Slot

-- The body of `POST /api/history`.
pub record HistoryPost : Type 0 where
  pub query_id : Text
  pub elapsed_ms : ℕ
  pub count : ℕ
  pub results : List MatchResult
  pub filename : Option Text
  pub duration_sec : Option ℕ
  pub name : Option Text
  pub tags : List Text

pub record Browser : Type 0 where
  pub window : Bool
  pub slot : Slot
  pub posted : List HistoryPost

abbrev pub max_matches : ℕ
max_matches = 200

abbrev pub slot_matches : Slot → List StoredMatch
slot_matches absent = []
slot_matches unreadable = []
slot_matches (holds ms) = ms

unfoldable pub load_matches : Browser → List StoredMatch
load_matches b = if not b.window then [] else slot_matches b.slot

-- `all.pop()`
unfoldable pub pop : List StoredMatch → List StoredMatch
pop [] = []
pop (m ∷ []) = []
pop (m ∷ n ∷ ms) = m ∷ pop (n ∷ ms)

-- `while (all.length > MAX) all.pop()` with fuel.
unfoldable pub pop_excess : ℕ → List StoredMatch → List StoredMatch
unfolding pop
pop_excess zero ms = ms
pop_excess (suc fuel) ms =
    let rest = pop_excess fuel (pop ms) in if ltb max_matches (length ms) then rest else ms

-- `delete e.query_waveform`
abbrev pub drop_waveform : StoredMatch → StoredMatch
drop_waveform m = record m { query_waveform = none }

abbrev pub history_post : StoredMatch → HistoryPost
history_post m = record {
  query_id = m.query_id;
  elapsed_ms = m.elapsed_ms;
  count = m.count;
  results = m.results;
  filename = m.filename;
  duration_sec = m.duration_sec;
  name = m.name;
  tags = or_else m.tags [];
}

abbrev pub has_id : Text → StoredMatch → Bool
has_id id m = text_eq m.query_id id

-- A patch of `updateMatch`: `none` where the key is not in the patch, `some none` where its value
-- is undefined.
pub record Patch : Type 0 where
  pub name : Option (Option Text)
  pub tags : Option (Option (List (Option Text)))

abbrev pub patched_name : Option Text → Option Text
patched_name none = none
patched_name (some v) = let t = trim v in if is_empty t then none else some t

unfoldable pub patch_name : Option (Option Text) → StoredMatch → StoredMatch
patch_name none m = m
patch_name (some v) m = record m { name = patched_name v }

unfoldable pub patch_tags : Option (Option (List (Option Text))) → StoredMatch → StoredMatch
patch_tags none m = m
patch_tags (some ts) m = record m { tags = some (normalise_tags (or_else ts [])) }

abbrev pub apply_patch : Patch → StoredMatch → StoredMatch
apply_patch p m = patch_tags p.tags (patch_name p.name m)

-- The list with its first match of that id patched, and the new record.
unfoldable pub patch_first :
    Text → Patch → List StoredMatch → Option (List StoredMatch × StoredMatch)
unfolding patch_name patch_tags
patch_first id p [] = none
patch_first id p (m ∷ ms) =
    let rest = patch_first id p ms in
    if has_id id m
    then some (apply_patch p m ∷ ms, apply_patch p m)
    else elim rest [ none ↦ none | some (ms', n) ↦ some (m ∷ ms', n) ]

unfoldable pub get_match : Browser → Text → Option StoredMatch
get_match b id = find (has_id id) (load_matches b)

unfoldable pub clear_matches : Browser → Browser
clear_matches b = if b.window then record b { slot = absent } else b

module _ (fits : List StoredMatch → Bool) where
  -- `try { setItem(all) } catch {}`
  abbrev pub store : Browser → List StoredMatch → Browser
  store b all = if fits all then record b { slot = holds all } else b

  -- `save_match b m` is the browser after `saveMatch(m)`: a second try without the waveforms
  -- follows a refused `setItem`, and a post to the server follows in each case.
  unfoldable pub save_match : Browser → StoredMatch → Browser
  save_match b m =
      let all = pop_excess (suc (length (load_matches b))) (m ∷ load_matches b) in
      let stored =
        if fits all then record b { slot = holds all } else store b (map drop_waveform all) in
      if not b.window then b else record stored { posted = b.posted ++ history_post m ∷ [] }

  unfoldable pub delete_match : Browser → Text → Browser × Bool
  delete_match b id =
      let all = load_matches b in
      let next = filter (λ m. not (has_id id m)) all in
      if not b.window
      then (b, false)
      else if length next == length all
      then (b, false)
      else (store b next, true)

  unfoldable pub update_match : Browser → Text → Patch → Browser × Option StoredMatch
  update_match b id p =
      if not b.window then (b, none) else elim (patch_first id p (load_matches b)) [
        | none ↦ (b, none)
        | some (all, next) ↦ (store b all, some next)
      ]
