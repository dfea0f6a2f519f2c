-- ===== src/Catalog/Tracks.antt =====
-- What `deriveCatalog` of web/lib/history.ts counts.
use clawhum.Prelude.{ℕ, ◌+◌, true, false, List, [], ◌∷◌, ◌++◌, if◌then◌else◌, max, ◌≡◌, refl, arith}
use clawhum.Prelude.Text.{Text, text_eq, eq_iff}
use clawhum.Prelude.Sort.{
  IsSorted, sort_by-IsSorted, sum_by, max_by, sum_by-sort_by, max_by-sort_by,
}
use clawhum.Model.{MatchResult, StoredMatch}
use clawhum.History.{Browser, load_matches}
use clawhum.Catalog.{
  CatalogTrack, count_result, count_results, count_matches, more_seen, derive_catalog,
}

-- The results of all matches.
abbrev pub all_results : List StoredMatch → List MatchResult
all_results [] = []
all_results (m ∷ ms) = m.results ++ all_results ms

module _ (id : Text) where
  -- What a track counts for the id, and what a result counts for it.
  abbrev pub seen_at : CatalogTrack → ℕ
  seen_at t = if text_eq t.track_id id then t.seen else 0

  abbrev pub best_at : CatalogTrack → ℕ
  best_at t = if text_eq t.track_id id then t.best_score else 0

  abbrev pub entry_at : CatalogTrack → ℕ
  entry_at t = if text_eq t.track_id id then 1 else 0

  abbrev pub occurs : MatchResult → ℕ
  occurs r = if text_eq r.track_id id then 1 else 0

  abbrev pub score_at : MatchResult → ℕ
  score_at r = if text_eq r.track_id id then r.score else 0

  -- The three counts of a list of tracks against those of the results that it was made from.
  pub record Counts (ts : List CatalogTrack) (seen best entries : ℕ) : Type 0 where
    pub seen_total : sum_by seen_at ts ≡ seen
    pub best_total : max_by best_at ts ≡ best
    pub entry_total : sum_by entry_at ts ≡ entries

  module _ (r : MatchResult) where
    seen-count_result :
        (ts : List CatalogTrack) → sum_by seen_at (count_result ts r) ≡ occurs r + sum_by seen_at ts
    unfolding count_result
    seen-count_result [] = ground arith
    seen-count_result (t ∷ ts) = ground (
      arith,
      seen-count_result ts,
      eq_iff t.track_id r.track_id,
      eq_iff t.track_id id,
      eq_iff r.track_id id,
    )

    best-count_result :
        (ts : List CatalogTrack)
        → max_by best_at (count_result ts r) ≡ max (score_at r) (max_by best_at ts)
    unfolding count_result
    best-count_result [] = ground arith
    best-count_result (t ∷ ts) = ground (
      arith,
      best-count_result ts,
      eq_iff t.track_id r.track_id,
      eq_iff t.track_id id,
      eq_iff r.track_id id,
    )

    entry-count_result :
        (ts : List CatalogTrack)
        → sum_by entry_at (count_result ts r) ≡ max (occurs r) (sum_by entry_at ts)
    unfolding count_result
    entry-count_result [] = ground arith
    entry-count_result (t ∷ ts) = ground (
      arith,
      entry-count_result ts,
      eq_iff t.track_id r.track_id,
      eq_iff t.track_id id,
      eq_iff r.track_id id,
    )

  Counts-count_results :
      (ts : List CatalogTrack) (rs : List MatchResult)
      → Counts
          (count_results ts rs)
          (sum_by occurs rs + sum_by seen_at ts)
          (max (max_by score_at rs) (max_by best_at ts))
          (max (max_by occurs rs) (sum_by entry_at ts))
  unfolding count_results
  Counts-count_results ts [] = omega arith
  Counts-count_results ts (r ∷ rs) = omega (
    arith,
    Counts-count_results (count_result ts r) rs,
    seen-count_result r ts,
    best-count_result r ts,
    entry-count_result r ts,
  )

  count_results-append :
      (ts : List CatalogTrack) (rs ss : List MatchResult)
      → count_results ts (rs ++ ss) ≡ count_results (count_results ts rs) ss
  unfolding count_results
  count_results-append ts [] ss = refl
  count_results-append ts (r ∷ rs) ss = count_results-append (count_result ts r) rs ss

  -- The two loops are one loop over all results.
  count_matches-all_results :
      (ts : List CatalogTrack) (ms : List StoredMatch)
      → count_matches ts ms ≡ count_results ts (all_results ms)
  unfolding count_matches count_results
  count_matches-all_results ts [] = refl
  count_matches-all_results ts (m ∷ ms) =
      rw (count_results-append, count_matches-all_results (count_results ts m.results) ms)

  -- For each track id, the catalogue has one entry if any stored result has the id and none
  -- otherwise; the entry's `seen` is the number of those results, its `best_score` their best.
  pub derive_catalog-Counts :
      (b : Browser)
      → Counts
          (derive_catalog b)
          (sum_by occurs (all_results (load_matches b)))
          (max_by score_at (all_results (load_matches b)))
          (max_by occurs (all_results (load_matches b)))
  unfolding derive_catalog
  derive_catalog-Counts b =
      let ms = load_matches b in
      let c = Counts-count_results [] (all_results ms) in
      rw (count_matches-all_results [] ms) (
        omega (
          arith,
          c,
          sum_by-sort_by {0} more_seen seen_at (count_results [] (all_results ms)),
          max_by-sort_by {0} more_seen best_at (count_results [] (all_results ms)),
          sum_by-sort_by {0} more_seen entry_at (count_results [] (all_results ms)),
        ))

more_seen-total : (x y : CatalogTrack) → more_seen x y ≡ false → more_seen y x ≡ true
more_seen-total x y h = ground arith

more_seen_trans :
    (x y z : CatalogTrack) → more_seen x y ≡ true → more_seen y z ≡ true → more_seen x z ≡ true
more_seen_trans x y z h k = ground arith

-- The catalogue lists the tracks seen most first.
pub derive_catalog-IsSorted : (b : Browser) → IsSorted more_seen (derive_catalog b)
unfolding derive_catalog
derive_catalog-IsSorted b = sort_by-IsSorted more_seen more_seen-total more_seen_trans _
