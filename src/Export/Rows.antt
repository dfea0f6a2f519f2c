-- ===== src/Export/Rows.antt =====
-- What `flattenMatches` of web/lib/export.ts makes of a query log.
use mathlib.Core.List.{map-append}
use clawhum.Prelude.{
  ℕ, ◌+◌, Bool, not, List, [], ◌∷◌, ◌++◌, map, if◌then◌else◌, ◌==◌, is_empty, ◌≡◌, refl, arith,
  length, length-append, filter, filter-append, max,
}
use clawhum.Prelude.Text.{Text}
use clawhum.Model.{MatchResult, StoredMatch}
use clawhum.Export.{FlatRow, placeholder_row, candidate_rows, flatten_matches}

-- The rows that stand for a candidate.
abbrev pub ranked : FlatRow → Bool
ranked r = not (r.candidate_rank == 0)

-- One row for each candidate, and one for each query without candidates.
abbrev pub row_total : List StoredMatch → ℕ
row_total [] = 0
row_total (m ∷ ms) = max 1 (length m.results) + row_total ms

-- The candidates of the whole log, in order, each with its query.
abbrev pub candidates : List StoredMatch → List (Text × Text)
candidates [] = []
candidates (m ∷ ms) = map (λ r. (m.query_id, r.track_id)) m.results ++ candidates ms

abbrev pub row_candidate : FlatRow → Text × Text
row_candidate r = (r.query_id, r.track_id)

module _ (iso : ℕ → Text) where
  length-candidate_rows :
      (m : StoredMatch) (i : ℕ) (rs : List MatchResult)
      → length (candidate_rows iso m i rs) ≡ length rs
  unfolding candidate_rows
  length-candidate_rows m i [] = refl
  length-candidate_rows m i (r ∷ rs) = omega (arith, length-candidate_rows m (i + 1) rs)

  ranked-candidate_rows :
      (m : StoredMatch) (i : ℕ) (rs : List MatchResult)
      → map row_candidate (filter ranked (candidate_rows iso m i rs))
        ≡ map (λ r. (m.query_id, r.track_id)) rs
  unfolding candidate_rows
  ranked-candidate_rows m i [] = refl
  ranked-candidate_rows m i (r ∷ rs) = ground (arith, ranked-candidate_rows m (i + 1) rs)

  length-flatten_matches : (ms : List StoredMatch) → length (flatten_matches iso ms) ≡ row_total ms
  unfolding flatten_matches
  length-flatten_matches [] = refl
  length-flatten_matches (m ∷ ms) = ground (
    arith,
    length-flatten_matches ms,
    length-candidate_rows m 0 m.results,
    length-append (candidate_rows iso m 0 m.results) (flatten_matches iso ms),
  )

  ranked-block :
      (m : StoredMatch) (rs : List MatchResult)
      → map row_candidate (
          filter ranked
            (if is_empty rs then placeholder_row iso m ∷ [] else candidate_rows iso m 0 rs))
        ≡ map (λ r. (m.query_id, r.track_id)) rs
  ranked-block m [] = refl
  ranked-block m (r ∷ rs) = ranked-candidate_rows m 0 (r ∷ rs)

  ranked-flatten_matches :
      (ms : List StoredMatch)
      → map row_candidate (filter ranked (flatten_matches iso ms)) ≡ candidates ms
  unfolding flatten_matches
  ranked-flatten_matches [] = refl
  ranked-flatten_matches (m ∷ ms) =
      rw (filter-append, map-append, ranked-block m m.results, ranked-flatten_matches ms)

  -- The rows of a query log number one for each candidate and one for each query without any, and
  -- the rows of rank above 0 are exactly the candidates of all queries, in order.
  pub flatten_matches-candidates :
      (ms : List StoredMatch)
      → (length (flatten_matches iso ms) ≡ row_total ms)
        × (map row_candidate (filter ranked (flatten_matches iso ms)) ≡ candidates ms)
  flatten_matches-candidates ms = (length-flatten_matches ms, ranked-flatten_matches ms)
