-- ===== src/Query/Laws.antt =====
-- What `filterMatches` selects and how `sortMatches` orders.
use mathlib.Core.List.{Perm}
use clawhum.Prelude.{
  ℕ, ◌≤◌, ◌<◌, Bool, true, false, ◌||◌, Option, none, some, List, [], ◌∷◌, any, filter, or_else,
  is_empty, IsSelection, filter-IsSelection, ◌≡◌, ◌⊎◌, ◌↔◌, arith, ◌==◌,
}
use clawhum.Prelude.Text.{Text, lower, includes}
use clawhum.Prelude.TextSet.{has}
use clawhum.Prelude.Sort.{IsSorted, sort_by-perm, sort_by-IsSorted, filter-sort_by}
use clawhum.Model.{StoredMatch}
use clawhum.Query.{
  MatchFilter, best_score, too_late, needle, text_has, tags_pass, text_pass, keeps, filter_matches,
  MatchSort, ts_desc, ts_asc, score_desc, score_asc, latency_asc, latency_desc, in_order,
  sort_matches,
}

-- The upper bound on the time stamp, which is exclusive.
abbrev pub IsBefore : ℕ → Option ℕ → Type 0
IsBefore ts none = Unit
IsBefore ts (some u) = ts < u

-- Any of the wanted tags, if there are any.
abbrev pub HasWantedTag : Option (List Text) → List Text → Type 0
HasWantedTag none ts = Unit
HasWantedTag (some []) ts = Unit
HasWantedTag (some (w ∷ ws)) ts = any (has (w ∷ ws)) ts ≡ true

-- The places in which a query text is looked for.
abbrev pub MentionedIn : Text → StoredMatch → Type 0
MentionedIn q m =
    (includes (lower m.query_id) q ≡ true)
    ⊎ (text_has q m.name ≡ true)
    ⊎ (text_has q m.filename ≡ true)
    ⊎ (any (λ t. includes t q) (or_else m.tags []) ≡ true)
    ⊎ (any (λ r. includes (lower r.title) q || includes (lower r.artist) q) m.results ≡ true)

pub record Selected (f : MatchFilter) (m : StoredMatch) : Type 0 where
  pub since : or_else f.since 0 ≤ m.ts
  pub until : IsBefore m.ts f.until
  pub score : or_else f.min_score 0 ≤ best_score m.results
  pub tagged : HasWantedTag f.tags (or_else m.tags [])
  pub text : (is_empty (needle f.q) ≡ true) ⊎ MentionedIn (needle f.q) m

too_late_iff : (u : Option ℕ) (ts : ℕ) → (too_late u ts ≡ false) ↔ IsBefore ts u
unfolding too_late
too_late_iff none ts = ground arith
too_late_iff (some u) ts = ground arith

tags_pass_iff :
    (w : Option (List Text)) (ts : List Text) → (tags_pass w ts ≡ true) ↔ HasWantedTag w ts
unfolding tags_pass
tags_pass_iff none ts = ground arith
tags_pass_iff (some []) ts = ground arith
tags_pass_iff (some (w ∷ ws)) ts = ground arith

text_pass_iff :
    (q : Text) (m : StoredMatch) → (text_pass q m ≡ true) ↔ ((is_empty q ≡ true) ⊎ MentionedIn q m)
unfolding text_pass
text_pass_iff q m = ground arith

keeps_iff : (f : MatchFilter) (m : StoredMatch) → (keeps f m ≡ true) ↔ Selected f m
unfolding keeps
keeps_iff f m = ground (
  arith,
  too_late_iff f.until m.ts,
  tags_pass_iff f.tags (or_else m.tags []),
  text_pass_iff (needle f.q) m,
)

-- `filterMatches` returns, in their order, exactly the matches inside the time window whose best
-- score reaches the bound, that carry one of the wanted tags if any is wanted, and in whose id,
-- name, file name, tags, titles or artists the query text occurs if there is one.
pub filter_matches-IsSelection :
    (ms : List StoredMatch) (f : MatchFilter) → IsSelection (Selected f) ms (filter_matches ms f)
unfolding filter_matches
filter_matches-IsSelection ms f = filter-IsSelection (Selected f) (keeps f) (keeps_iff f) ms

in_order-total :
    (how : MatchSort) (x y : StoredMatch) → in_order how x y ≡ false → in_order how y x ≡ true
unfolding in_order
in_order-total ts_desc x y h = ground arith
in_order-total _ x y h = ground arith

in_order_trans :
    (how : MatchSort) (x y z : StoredMatch)
    → in_order how x y ≡ true
    → in_order how y z ≡ true
    → in_order how x z ≡ true
unfolding in_order
in_order_trans ts_desc x y z h k = ground arith
in_order_trans _ x y z h k = ground arith

-- The number that an order compares.
abbrev pub sort_key : MatchSort → StoredMatch → ℕ
sort_key ts_desc m = m.ts
sort_key ts_asc m = m.ts
sort_key score_desc m = best_score m.results
sort_key score_asc m = best_score m.results
sort_key latency_asc m = m.elapsed_ms
sort_key latency_desc m = m.elapsed_ms

abbrev pub has_key : MatchSort → ℕ → StoredMatch → Bool
has_key how k m = sort_key how m == k

in_order-tied :
    (how : MatchSort) (k : ℕ) (x y : StoredMatch)
    → has_key how k x ≡ true
    → has_key how k y ≡ true
    → in_order how x y ≡ true
unfolding in_order
in_order-tied ts_desc k x y h e = ground arith
in_order-tied _ k x y h e = ground arith

-- `sortMatches` rearranges the matches into the order asked for, and matches with the same key
-- keep the order that they had.
pub sort_matches-IsSorted :
    (ms : List StoredMatch) (how : MatchSort)
    → Perm (sort_matches ms how) ms
      × IsSorted (in_order how) (sort_matches ms how)
      × ((k : ℕ) → filter (has_key how k) (sort_matches ms how) ≡ filter (has_key how k) ms)
unfolding sort_matches
sort_matches-IsSorted ms how = (
  sort_by-perm (in_order how) ms,
  sort_by-IsSorted (in_order how) (in_order-total how) (in_order_trans how) ms,
  λ k. filter-sort_by (in_order how) (has_key how k) (in_order-tied how k) ms,
)
