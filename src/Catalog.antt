-- ===== src/Catalog.antt =====
-- web/lib/history.ts: `deriveCatalog`, `allTags` and `downsampleFloat`.
-- A `Map` is the list of its values in insertion order, each with its key inside.
pub mod Tracks
pub mod TagCounts
pub mod Samples
use clawhum.Prelude.{
  ℕ, zero, suc, ◌+◌, ◌*◌, ◌/◌, Bool, true, false, ◌||◌, ◌&&◌, Option, none, some, List, [], ◌∷◌,
  ◌++◌, if◌then◌else◌, ltb, leb, ◌==◌, or_else, length, get_elem?,
}
use clawhum.Prelude.Text.{Text, text_eq}
use clawhum.Prelude.Sort.{sort_by}
use clawhum.Model.{MatchResult, StoredMatch}
use clawhum.History.{Browser, load_matches}

pub record CatalogTrack : Type 0 where
  pub track_id : Text
  pub title : Text
  pub artist : Text
  pub album : Option Text
  pub source : Text
  pub artwork_url : Option Text
  pub preview_url : Option Text
  pub tempo_bpm : Option ℕ
  pub seen : ℕ
  pub best_score : ℕ

abbrev pub new_track : MatchResult → CatalogTrack
new_track r = record {
  track_id = r.track_id;
  title = r.title;
  artist = r.artist;
  album = r.album;
  source = r.source;
  artwork_url = r.artwork_url;
  preview_url = r.preview_url;
  tempo_bpm = r.tempo_bpm;
  seen = 1;
  best_score = r.score;
}

-- `prev.seen += 1`, and the better score.
abbrev pub seen_again : MatchResult → CatalogTrack → CatalogTrack
seen_again r t = record t {
  seen = t.seen + 1;
  best_score = if ltb t.best_score r.score then r.score else t.best_score;
}

-- The body of the inner loop.
unfoldable pub count_result : List CatalogTrack → MatchResult → List CatalogTrack
count_result [] r = new_track r ∷ []
count_result (t ∷ ts) r =
    let rest = count_result ts r in
    if text_eq t.track_id r.track_id then seen_again r t ∷ ts else t ∷ rest

unfoldable pub count_results : List CatalogTrack → List MatchResult → List CatalogTrack
count_results ts [] = ts
count_results ts (r ∷ rs) = count_results (count_result ts r) rs

unfoldable pub count_matches : List CatalogTrack → List StoredMatch → List CatalogTrack
count_matches ts [] = ts
count_matches ts (m ∷ ms) = count_matches (count_results ts m.results) ms

abbrev pub more_seen : CatalogTrack → CatalogTrack → Bool
more_seen a b = leb b.seen a.seen

unfoldable pub derive_catalog : Browser → List CatalogTrack
derive_catalog b = sort_by more_seen (count_matches [] (load_matches b))

pub record TagCount : Type 0 where
  pub tag : Text
  pub count : ℕ

-- `counts.set(t, (counts.get(t) ?? 0) + 1)`
unfoldable pub count_tag : List TagCount → Text → List TagCount
count_tag [] t = record { tag = t; count = 1 } ∷ []
count_tag (c ∷ cs) t =
    let rest = count_tag cs t in
    if text_eq c.tag t then record c { count = c.count + 1 } ∷ cs else c ∷ rest

unfoldable pub count_tags : List TagCount → List Text → List TagCount
count_tags cs [] = cs
count_tags cs (t ∷ ts) = count_tags (count_tag cs t) ts

unfoldable pub tag_counts : List TagCount → List StoredMatch → List TagCount
tag_counts cs [] = cs
tag_counts cs (m ∷ ms) = tag_counts (count_tags cs (or_else m.tags [])) ms

-- `collates a b` is `a.localeCompare(b) <= 0`, the collation of the user's locale.
module _ (collates : Text → Text → Bool) where
  abbrev pub tag_order : TagCount → TagCount → Bool
  tag_order a b = ltb b.count a.count || ((a.count == b.count) && collates a.tag b.tag)

  unfoldable pub all_tags : List StoredMatch → List TagCount
  all_tags matches = sort_by tag_order (tag_counts [] matches)

module _ {ℓ} {A : Type ℓ} where
  -- The loop of `downsampleFloat`: the sample at `floor(i * length / target)` for each index `i`.
  -- A read out of range would give `undefined`, which is `none`.
  unfoldable pub pick_samples : List A → ℕ → ℕ → ℕ → List (Option A)
  pick_samples a target i zero = []
  pick_samples a target i (suc left) =
      get_elem? a (i * length a / target) ∷ pick_samples a target (i + 1) left

  unfoldable pub all_samples : List A → List (Option A)
  all_samples [] = []
  all_samples (x ∷ xs) = some x ∷ all_samples xs

  unfoldable pub downsample_float : List A → ℕ → List (Option A)
  downsample_float a target =
      if leb (length a) target then all_samples a else pick_samples a target 0 target
