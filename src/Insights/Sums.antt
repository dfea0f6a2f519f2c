-- ===== src/Insights/Sums.antt =====
-- What the totals of web/app/insights/page.tsx add up to.
use clawhum.Prelude.{
  ℕ, suc, ◌+◌, ◌++◌, length-append, ◌≤◌, Bool, true, List, [], ◌∷◌, any, length, All, ◌≡◌, refl,
  arith,
}
use clawhum.Prelude.Sort.{sum_by}
use clawhum.Model.{MatchResult, StoredMatch}
use clawhum.Insights.{
  Bucket, score_bins, latency_bins, bump_first, in_score_bin, in_latency_bin, TopTrack, add_result,
  add_results, Totals, no_totals, add_best, add_match, add_matches,
}

abbrev pub counted : List Bucket → ℕ
counted bs = sum_by (λ b. b.count) bs

length-bump_first :
    {A : Type 0} (p : A → Bool) (bins : List A) (bs : List Bucket)
    → length (bump_first p bins bs) ≡ length bs
unfolding bump_first
length-bump_first p [] bs = refl
length-bump_first p (a ∷ bins) [] = refl
length-bump_first p (a ∷ bins) (b ∷ bs) = ground (arith, length-bump_first p bins bs)

counted-bump_first :
    {A : Type 0} (p : A → Bool) (bins : List A) (bs : List Bucket)
    → any p bins ≡ true
    → length bs ≡ length bins
    → counted (bump_first p bins bs) ≡ suc (counted bs)
unfolding bump_first
counted-bump_first p [] bs h k = cc
counted-bump_first p (a ∷ bins) [] h k = absurd (omega arith)
counted-bump_first p (a ∷ bins) (b ∷ bs) h k = ground (arith, counted-bump_first p bins bs)

seen-add_result :
    (ts : List TopTrack) (r : MatchResult)
    → sum_by (λ t. t.seen) (add_result ts r) ≡ suc (sum_by (λ t. t.seen) ts)
unfolding add_result
seen-add_result [] r = refl
seen-add_result (t ∷ ts) r = ground (arith, seen-add_result ts r)

seen-add_results :
    (ts : List TopTrack) (rs : List MatchResult)
    → sum_by (λ t. t.seen) (add_results ts rs) ≡ sum_by (λ t. t.seen) ts + length rs
unfolding add_results
seen-add_results ts [] = omega arith
seen-add_results ts (r ∷ rs) =
    omega (arith, seen-add_results (add_result ts r) rs, seen-add_result ts r)

-- Each score of the list is at most 1.
abbrev pub IsScored : List MatchResult → Type 0
IsScored rs = All (λ r. r.score ≤ 1000000) rs

score_in_bin : (s : ℕ) → s ≤ 1000000 → any (in_score_bin s) score_bins ≡ true
score_in_bin s h = ground arith

latency_in_bin : (e : ℕ) → any (in_latency_bin e) latency_bins ≡ true
latency_in_bin e = ground arith

-- The totals over `n` matches with `k` results in all.
pub record IsTotal (n k : ℕ) (t : Totals) : Type 0 where
  pub every : t.empty + t.score_sum_count ≡ n
  pub strong_hits : t.strong ≤ t.hits
  pub hits_bound : t.hits ≤ t.score_sum_count
  pub scores : counted t.score_hist ≡ t.score_sum_count
  pub latencies : counted t.latency_hist ≡ n
  pub listed : length t.latencies ≡ n
  pub tracks : sum_by (λ u. u.seen) t.tracks ≡ k
  pub score_bars : length t.score_hist ≡ 10
  pub latency_bars : length t.latency_hist ≡ 7

-- What the loop's body does to the latencies and tracks, whatever the best result is.
add_match-rest :
    (n k : ℕ) (t : Totals) (m : StoredMatch)
    → counted t.latency_hist ≡ n
    → length t.latency_hist ≡ 7
    → counted (bump_first (in_latency_bin m.elapsed_ms) latency_bins t.latency_hist) ≡ suc n
add_match-rest n k t m h l = omega (
  arith,
  counted-bump_first (in_latency_bin m.elapsed_ms) latency_bins t.latency_hist
      (latency_in_bin m.elapsed_ms) l,
)

length-snoc : (es : List ℕ) (e : ℕ) → length (es ++ e ∷ []) ≡ suc (length es)
length-snoc es e = omega (arith, length-append es (e ∷ []))

add_match-IsTotal :
    (n k : ℕ) (t : Totals) (m : StoredMatch) (rs : List MatchResult)
    → m.results ≡ rs
    → IsScored rs
    → IsTotal n k t
    → IsTotal (suc n) (k + length rs) (add_match t m)
unfolding add_match add_best
add_match-IsTotal n k t m [] e h v = rw e (record {
  every = omega (arith, v.every);
  strong_hits = v.strong_hits;
  hits_bound = v.hits_bound;
  scores = v.scores;
  latencies = add_match-rest n k t m v.latencies v.latency_bars;
  listed = omega (arith, length-snoc t.latencies m.elapsed_ms, v.listed);
  tracks = omega (arith, seen-add_results t.tracks [], v.tracks);
  score_bars = v.score_bars;
  latency_bars = omega (
    arith,
    length-bump_first (in_latency_bin m.elapsed_ms) latency_bins t.latency_hist,
    v.latency_bars,
  );
})
add_match-IsTotal n k t m (r ∷ rs) e (h, hs) v = rw e (record {
  every = omega (arith, v.every);
  strong_hits = ground (arith, v.strong_hits);
  hits_bound = ground (arith, v.hits_bound);
  scores = omega (
    arith,
    counted-bump_first (in_score_bin r.score) score_bins t.score_hist (score_in_bin r.score h)
        v.score_bars,
    v.scores,
  );
  latencies = add_match-rest n k t m v.latencies v.latency_bars;
  listed = omega (arith, length-snoc t.latencies m.elapsed_ms, v.listed);
  tracks = omega (arith, seen-add_results t.tracks (r ∷ rs), v.tracks);
  score_bars =
      omega (arith, length-bump_first (in_score_bin r.score) score_bins t.score_hist, v.score_bars);
  latency_bars = omega (
    arith,
    length-bump_first (in_latency_bin m.elapsed_ms) latency_bins t.latency_hist,
    v.latency_bars,
  );
})

-- The number of results of all matches.
abbrev pub result_count : List StoredMatch → ℕ
result_count ms = sum_by (λ m. length m.results) ms

IsTotal-eq : (n k n' k' : ℕ) (t : Totals) → n ≡ n' → k ≡ k' → IsTotal n k t → IsTotal n' k' t
IsTotal-eq n k n' k' t e f v = record {
  every = omega (arith, v.every);
  strong_hits = v.strong_hits;
  hits_bound = v.hits_bound;
  scores = v.scores;
  latencies = omega (arith, v.latencies);
  listed = omega (arith, v.listed);
  tracks = omega (arith, v.tracks);
  score_bars = v.score_bars;
  latency_bars = v.latency_bars;
}

add_matches-from :
    (n k : ℕ) (t : Totals) (ms : List StoredMatch)
    → All (λ m. IsScored m.results) ms
    → IsTotal n k t
    → IsTotal (n + length ms) (k + result_count ms) (add_matches t ms)
unfolding add_matches
add_matches-from n k t [] h v = IsTotal-eq n k _ _ t (omega arith) (omega arith) v
add_matches-from n k t (m ∷ ms) (h, hs) v = IsTotal-eq _ _ _ _ _ (omega arith) (omega arith) (
    add_matches-from (suc n) (k + length m.results) (add_match t m) ms hs
      (add_match-IsTotal n k t m m.results refl h v))

no_totals-IsTotal : IsTotal 0 0 no_totals
no_totals-IsTotal = record {
  every = refl;
  strong_hits = omega arith;
  hits_bound = omega arith;
  scores = refl;
  latencies = refl;
  listed = refl;
  tracks = refl;
  score_bars = refl;
  latency_bars = refl;
}

-- For matches whose scores are at most 1: each match is either empty or counted by its best score,
-- strong matches are hits, both histograms count every match that they are about exactly once,
-- one latency is kept for each match, and the tracks are seen as often as there are results.
pub add_matches-IsTotal :
    (ms : List StoredMatch)
    → All (λ m. IsScored m.results) ms
    → IsTotal (length ms) (result_count ms) (add_matches no_totals ms)
add_matches-IsTotal ms h =
    IsTotal-eq _ _ _ _ _ (omega arith) (omega arith)
      (add_matches-from 0 0 no_totals ms h no_totals-IsTotal)
