-- ===== src/Query.antt =====
-- web/lib/history.ts: `filterMatches` and `sortMatches`.
pub mod Laws
use clawhum.Prelude.{
  ℕ, Bool, true, false, not, ◌&&◌, ◌||◌, Option, none, some, List, [], ◌∷◌, if◌then◌else◌, ltb, leb,
  any, filter, head?, or_else, is_empty,
}
use clawhum.Prelude.Text.{Text, trim, lower, includes}
use clawhum.Prelude.TextSet.{has}
use clawhum.Prelude.Sort.{sort_by}
use clawhum.Model.{StoredMatch, MatchResult}

-- `until` is `Number.POSITIVE_INFINITY` where it is missing.
pub record MatchFilter : Type 0 where
  pub q : Option Text
  pub tags : Option (List Text)
  pub min_score : Option ℕ
  pub since : Option ℕ
  pub until : Option ℕ

-- `m.results[0]?.score ?? 0`
unfoldable pub best_score : List MatchResult → ℕ
best_score [] = 0
best_score (r ∷ _) = r.score

-- `m.ts >= until`
unfoldable pub too_late : Option ℕ → ℕ → Bool
too_late none ts = false
too_late (some u) ts = leb u ts

-- `f.q?.trim().toLowerCase() ?? ""`
unfoldable pub needle : Option Text → Text
needle none = []
needle (some q) = lower (trim q)

-- `text?.toLowerCase().includes(q)`
unfoldable pub text_has : Text → Option Text → Bool
text_has q none = false
text_has q (some t) = includes (lower t) q

-- `!tags || mtags.some(t => tags.has(t))`: an empty list of tags filters nothing.
unfoldable pub tags_pass : Option (List Text) → List Text → Bool
tags_pass none mtags = true
tags_pass (some []) mtags = true
tags_pass (some (t ∷ ts)) mtags = any (has (t ∷ ts)) mtags

unfoldable pub text_pass : Text → StoredMatch → Bool
unfolding text_has
text_pass q m =
    if is_empty q
    then true
    else if includes (lower m.query_id) q
    then true
    else if text_has q m.name
    then true
    else if text_has q m.filename
    then true
    else if any (λ t. includes t q) (or_else m.tags [])
    then true
    else any (λ r. includes (lower r.title) q || includes (lower r.artist) q) m.results

-- The callback of `matches.filter`.
unfoldable pub keeps : MatchFilter → StoredMatch → Bool
unfolding best_score too_late needle tags_pass text_pass
keeps f m =
    if ltb m.ts (or_else f.since 0) || too_late f.until m.ts
    then false
    else if ltb (best_score m.results) (or_else f.min_score 0)
    then false
    else if not (tags_pass f.tags (or_else m.tags []))
    then false
    else text_pass (needle f.q) m

unfoldable pub filter_matches : List StoredMatch → MatchFilter → List StoredMatch
unfolding keeps
filter_matches matches f = filter (keeps f) matches

pub data MatchSort : Type 0 where
  ts_desc ts_asc score_desc score_asc latency_asc latency_desc : MatchSort

-- Each comparison is at most 0.
unfoldable pub in_order : MatchSort → StoredMatch → StoredMatch → Bool
unfolding best_score
in_order ts_desc x y = leb y.ts x.ts
in_order ts_asc x y = leb x.ts y.ts
in_order score_desc x y = leb (best_score y.results) (best_score x.results)
in_order score_asc x y = leb (best_score x.results) (best_score y.results)
in_order latency_asc x y = leb x.elapsed_ms y.elapsed_ms
in_order latency_desc x y = leb y.elapsed_ms x.elapsed_ms

unfoldable pub sort_matches : List StoredMatch → MatchSort → List StoredMatch
unfolding in_order sort_by
sort_matches matches how = sort_by (in_order how) matches
