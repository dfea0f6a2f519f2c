-- ===== src/MatchesPage.antt =====
-- web/app/matches/page.tsx: the query log, over the store of History.antt, the filters and orders of
-- Query.antt and the tags of Tags.antt.
-- `fits` says whether the storage takes a list of matches, and `now` is the clock's reading; a time
-- before the epoch counts as 0, and no match is that old.
pub mod Pages
pub mod Changes
use clawhum.Prelude.{
  ℕ, zero, suc, ◌+◌, ◌-◌, ◌*◌, ◌/◌, min, max, Bool, true, false, not, Option, none, some, List, [],
  ◌∷◌, ◌++◌, map, if◌then◌else◌, ltb, filter, length, take, drop, is_empty, or_else,
}
use clawhum.Prelude.Text.{Text, codes, text_eq, join}
use clawhum.Prelude.TextSet.{has}
use clawhum.Model.{StoredMatch}
use clawhum.History.{Browser, Patch, load_matches, update_match, delete_match, clear_matches}
use clawhum.Query.{MatchFilter, MatchSort, filter_matches, sort_matches}
use clawhum.Tags.{normalise_tags}
use clawhum.Keys.Handlers.{split_parts}

abbrev pub page_size : ℕ
page_size = 25

-- `RANGE_PRESETS` by their ids: all, 24h, 7d and 30d.
pub data RangePreset : Type 0 where
  all_time last_day last_week last_month : RangePreset

unfoldable pub preset_ms : RangePreset → ℕ
preset_ms all_time = 0
preset_ms last_day = 24 * 3600000
preset_ms last_week = 7 * 86400000
preset_ms last_month = 30 * 86400000

pub record MatchesPage : Type 0 where
  pub browser : Browser
  pub items : Option (List StoredMatch)
  pub q : Text
  pub active_tags : List Text
  pub min_score : ℕ
  pub range : RangePreset
  pub sort : MatchSort
  pub page : ℕ
  pub renaming : Option Text
  pub rename_draft : Text
  pub tagging : Option Text
  pub tag_draft : Text

unfoldable pub page_filter : ℕ → MatchesPage → MatchFilter
unfolding preset_ms
page_filter now p = record {
  q = some p.q;
  tags = some p.active_tags;
  min_score = some p.min_score;
  since = if ltb 0 (preset_ms p.range) then some (now - preset_ms p.range) else none;
  until = none;
}

unfoldable pub filtered : ℕ → MatchesPage → List StoredMatch
unfolding page_filter filter_matches sort_matches
filtered now p = elim p.items [
  | none ↦ []
  | some ms ↦ sort_matches (filter_matches ms (page_filter now p)) p.sort
]

-- `Math.max(1, Math.ceil(n / PAGE_SIZE))`
unfoldable pub total_pages : ℕ → ℕ
total_pages n = max 1 ((n + (page_size - 1)) / page_size)

-- `filtered.slice(start, start + PAGE_SIZE)` of page `k`.
unfoldable pub page_slice : ℕ → List StoredMatch → List StoredMatch
page_slice k ms = take page_size (drop ((k - 1) * page_size) ms)

unfoldable pub visible : ℕ → MatchesPage → List StoredMatch
unfolding filtered total_pages page_slice
visible now p = let ms = filtered now p in page_slice (min p.page (total_pages (length ms))) ms

-- A change of a filter or of the order, with the effect that goes back to page 1.
unfoldable pub set_filters :
    Text → List Text → ℕ → RangePreset → MatchSort → MatchesPage → MatchesPage
set_filters q tags score range sort p = record p {
  q = q;
  active_tags = tags;
  min_score = score;
  range = range;
  sort = sort;
  page = 1;
}

-- `toggleTag`, with the same effect.
unfoldable pub toggle_tag : Text → MatchesPage → MatchesPage
toggle_tag t p = record p {
  active_tags =
      if has p.active_tags t
      then filter (λ x. not (text_eq x t)) p.active_tags
      else p.active_tags ++ t ∷ [];
  page = 1;
}

unfoldable pub refresh : MatchesPage → MatchesPage
unfolding load_matches
refresh p = record p { items = some (load_matches p.browser) }

unfoldable pub start_rename : StoredMatch → MatchesPage → MatchesPage
start_rename m p = record p {
  renaming = some m.query_id;
  rename_draft = or_else m.name [];
  tagging = none;
}

unfoldable pub start_tagging : StoredMatch → MatchesPage → MatchesPage
unfolding join
start_tagging m p = record p {
  tagging = some m.query_id;
  tag_draft = join (codes ", ") (or_else m.tags []);
  renaming = none;
}

abbrev pub name_patch : Text → Patch
name_patch draft = record { name = some (some draft); tags = none }

-- The tags of the draft: `normaliseTags` drops the empty parts of the split.
abbrev pub tags_patch : Text → Patch
tags_patch draft = record {
  name = none;
  tags = some (some (map some (normalise_tags (map some (split_parts [] draft)))));
}

module _ (fits : List StoredMatch → Bool) where
  -- An empty id is falsy.
  unfoldable pub commit_rename : MatchesPage → MatchesPage
  unfolding refresh
  commit_rename p = elim p.renaming [
    | none ↦ p
    | some id ↦
        if is_empty id
        then p
        else refresh (record p {
          browser = (update_match fits p.browser id (name_patch p.rename_draft)).0;
          renaming = none;
          rename_draft = [];
        })
  ]

  unfoldable pub commit_tags : MatchesPage → MatchesPage
  unfolding refresh split_parts
  commit_tags p = elim p.tagging [
    | none ↦ p
    | some id ↦
        if is_empty id
        then p
        else refresh (record p {
          browser = (update_match fits p.browser id (tags_patch p.tag_draft)).0;
          tagging = none;
          tag_draft = [];
        })
  ]

  -- `removeOne`, with the answer of `confirm`.
  unfoldable pub remove_one : Bool → Text → MatchesPage → MatchesPage
  unfolding refresh
  remove_one confirmed id p =
      if not confirmed
      then p
      else refresh (record p { browser = (delete_match fits p.browser id).0 })

-- The button "clear", with the answer of `confirm`.
unfoldable pub clear_log : Bool → MatchesPage → MatchesPage
unfolding clear_matches
clear_log confirmed p =
    if not confirmed then p else record p { browser = clear_matches p.browser; items = some [] }
