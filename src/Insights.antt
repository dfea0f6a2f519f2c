-- ===== src/Insights.antt =====
-- web/app/insights/page.tsx: the totals, histograms and tracks of `computeAll`.
-- A score is in millionths. A mean is its sum and its count, before the division. The points by day
-- are in Days.
pub mod Sums
pub mod Days
use clawhum.Prelude.{
  ℕ, suc, ◌+◌, ◌*◌, ◌/◌, ◌-◌, Bool, true, false, not, ◌&&◌, ◌||◌, Option, none, some, List, [], ◌∷◌,
  ◌++◌, map, if◌then◌else◌, ◌==◌, ltb, leb, length, get_elem?, is_empty, or_else, min,
}
use clawhum.Prelude.Text.{Text, codes, text_eq}
use clawhum.Prelude.Sort.{sort_by, sum_by}
use clawhum.Model.{MatchResult, StoredMatch}

pub record Bucket : Type 0 where
  pub label : Text
  pub count : ℕ

-- The bounds `lo` and `hi`, and the label.
pub record ScoreBin : Type 0 where
  pub lo : ℕ
  pub hi : ℕ
  pub label : Text

abbrev pub score_bin : ℕ → ℕ → Text → ScoreBin
score_bin lo hi label = record { lo = lo; hi = hi; label = label }

abbrev pub score_bins : List ScoreBin
score_bins =
    score_bin 0 100000 (codes "0.0-0.1")
    ∷ score_bin 100000 200000 (codes "0.1-0.2")
    ∷ score_bin 200000 300000 (codes "0.2-0.3")
    ∷ score_bin 300000 400000 (codes "0.3-0.4")
    ∷ score_bin 400000 500000 (codes "0.4-0.5")
    ∷ score_bin 500000 600000 (codes "0.5-0.6")
    ∷ score_bin 600000 700000 (codes "0.6-0.7")
    ∷ score_bin 700000 800000 (codes "0.7-0.8")
    ∷ score_bin 800000 900000 (codes "0.8-0.9")
    ∷ score_bin 900000 1010000 (codes "0.9-1.0")
    ∷ []

-- `lt` is `none` for Infinity.
pub record LatencyBin : Type 0 where
  pub lt : Option ℕ
  pub label : Text

abbrev pub latency_bin : Option ℕ → Text → LatencyBin
latency_bin lt label = record { lt = lt; label = label }

abbrev pub latency_bins : List LatencyBin
latency_bins =
    latency_bin (some 100) (codes "<100")
    ∷ latency_bin (some 200) (codes "100-200")
    ∷ latency_bin (some 400) (codes "200-400")
    ∷ latency_bin (some 800) (codes "400-800")
    ∷ latency_bin (some 1600) (codes "800-1600")
    ∷ latency_bin (some 3200) (codes "1600-3200")
    ∷ latency_bin none (codes ">3200")
    ∷ []

-- The loop over the bins: the bucket of the first bin that passes counts one more.
unfoldable pub bump_first {ℓ} : {A : Type ℓ} → (A → Bool) → List A → List Bucket → List Bucket
bump_first p [] bs = bs
bump_first p (_ ∷ _) [] = []
bump_first p (a ∷ bins) (b ∷ bs) =
    let rest = bump_first p bins bs in
    if p a then record b { count = suc b.count } ∷ bs else b ∷ rest

abbrev pub in_score_bin : ℕ → ScoreBin → Bool
in_score_bin s b = leb b.lo s && ltb s b.hi

abbrev pub below : ℕ → Option ℕ → Bool
below e none = true
below e (some n) = ltb e n

abbrev pub in_latency_bin : ℕ → LatencyBin → Bool
in_latency_bin e b = below e b.lt

-- A track with the list of its scores.
pub record TopTrack : Type 0 where
  pub track_id : Text
  pub title : Text
  pub artist : Text
  pub source : Text
  pub seen : ℕ
  pub best_score : ℕ
  pub scores : List ℕ

abbrev pub new_top : MatchResult → TopTrack
new_top r = record {
  track_id = r.track_id;
  title = if is_empty r.title then codes "(untitled)" else r.title;
  artist = r.artist;
  source = r.source;
  seen = 1;
  best_score = r.score;
  scores = r.score ∷ [];
}

unfoldable pub add_result : List TopTrack → MatchResult → List TopTrack
add_result [] r = new_top r ∷ []
add_result (t ∷ ts) r =
    let rest = add_result ts r in
    if text_eq t.track_id r.track_id
    then record t {
      seen = suc t.seen;
      scores = t.scores ++ r.score ∷ [];
      best_score = if ltb t.best_score r.score then r.score else t.best_score;
    }
      ∷ ts
    else t ∷ rest

unfoldable pub add_results : List TopTrack → List MatchResult → List TopTrack
add_results ts [] = ts
add_results ts (r ∷ rs) = add_results (add_result ts r) rs

-- The variables of the loop over the matches, but for those of the days.
pub record Totals : Type 0 where
  pub hits : ℕ
  pub strong : ℕ
  pub empty : ℕ
  pub score_sum : ℕ
  pub score_sum_count : ℕ
  pub score_hist : List Bucket
  pub latency_hist : List Bucket
  pub latencies : List ℕ
  pub total_duration : ℕ
  pub tracks : List TopTrack

abbrev pub no_totals : Totals
no_totals = record {
  hits = 0;
  strong = 0;
  empty = 0;
  score_sum = 0;
  score_sum_count = 0;
  score_hist = map (λ b. record { label = b.label; count = 0 }) score_bins;
  latency_hist = map (λ b. record { label = b.label; count = 0 }) latency_bins;
  latencies = [];
  total_duration = 0;
  tracks = [];
}

unfoldable pub add_best : Totals → List MatchResult → Totals
add_best t [] = record t { empty = suc t.empty }
add_best t (best ∷ _) = record t {
  hits = if leb 300000 best.score then suc t.hits else t.hits;
  strong = if leb 500000 best.score then suc t.strong else t.strong;
  score_sum = t.score_sum + best.score;
  score_sum_count = suc t.score_sum_count;
  score_hist = bump_first (in_score_bin best.score) score_bins t.score_hist;
}

-- The body of the loop.
unfoldable pub add_match : Totals → StoredMatch → Totals
unfolding add_best bump_first add_results
add_match t m =
    let t' = add_best t m.results in
    record t' {
      latencies = t'.latencies ++ m.elapsed_ms ∷ [];
      latency_hist = bump_first (in_latency_bin m.elapsed_ms) latency_bins t'.latency_hist;
      total_duration = t'.total_duration + or_else m.duration_sec 0;
      tracks = add_results t'.tracks m.results;
    }

unfoldable pub add_matches : Totals → List StoredMatch → Totals
unfolding add_match
add_matches t [] = t
add_matches t (m ∷ ms) = add_matches (add_match t m) ms

-- `b.seen - a.seen || b.best_score - a.best_score`
abbrev pub top_order : TopTrack → TopTrack → Bool
top_order a b = ltb b.seen a.seen || ((a.seen == b.seen) && leb b.best_score a.best_score)

unfoldable pub top_tracks : Totals → List TopTrack
top_tracks t = sort_by top_order t.tracks

-- `sorted[Math.min(sorted.length - 1, Math.floor(0.95 * (sorted.length - 1)))]`, and 0 without
-- latencies.
unfoldable pub p95_latency : List ℕ → ℕ
p95_latency [] = 0
p95_latency (e ∷ es) =
    let n = length es in or_else (get_elem? (sort_by leb (e ∷ es)) (min n (95 * n / 100))) 0
