-- ===== src/Insights/Days.antt =====
-- The points by day of `computeAll` in web/app/insights/page.tsx.
-- The local calendar is a parameter: `day_key` is `dayKey` (the date of a time), `start_of_day` is
-- `startOfDay` (the midnight before it). A mean is its sum and its count, before it is rounded.
pub mod Fuel
use clawhum.Prelude.{
  ℕ, zero, suc, ◌+◌, ◌-◌, ◌/◌, Bool, true, false, Option, none, some, List, [], ◌∷◌, ◌++◌,
  if◌then◌else◌, ltb, leb, find, drop, length,
}
use clawhum.Prelude.Text.{Text, text_eq}
use clawhum.Prelude.Sort.{sort_by, sum_by}
use clawhum.Model.{MatchResult, StoredMatch}

-- An entry of `dayMap`.
pub record Day : Type 0 where
  pub day : Text
  pub ts : ℕ
  pub queries : ℕ
  pub hits : ℕ
  pub latencies : List ℕ
  pub top_scores : List ℕ

-- A point; each mean is a sum and a count.
pub record DailyPoint : Type 0 where
  pub day : Text
  pub ts : ℕ
  pub queries : ℕ
  pub hits : ℕ
  pub mean_latency : ℕ × ℕ
  pub mean_top_score : ℕ × ℕ

abbrev pub one_day : ℕ
one_day = 86400000

abbrev pub total : List ℕ → ℕ
total xs = sum_by (λ x. x) xs

abbrev pub mean : List ℕ → ℕ × ℕ
mean xs = (total xs, length xs)

-- What a match adds to its day.
unfoldable pub count_in_day : StoredMatch → Day → Day
count_in_day m d = elim m.results [
  | [] ↦ record d { queries = suc d.queries; latencies = d.latencies ++ m.elapsed_ms ∷ [] }
  | best ∷ _ ↦ record d {
    queries = suc d.queries;
    hits = if leb 300000 best.score then suc d.hits else d.hits;
    latencies = d.latencies ++ m.elapsed_ms ∷ [];
    top_scores = d.top_scores ++ best.score ∷ [];
  }
]

abbrev pub earlier : Day → Day → Bool
earlier a b = leb a.ts b.ts

unfoldable pub last_ts : ℕ → List Day → ℕ
last_ts t [] = t
last_ts t (d ∷ ds) = last_ts d.ts ds

module _ (day_key : ℕ → Text) (start_of_day : ℕ → ℕ) where
  abbrev pub new_day : ℕ → Day
  new_day ts = record {
    day = day_key ts;
    ts = start_of_day ts;
    queries = 0;
    hits = 0;
    latencies = [];
    top_scores = [];
  }

  unfoldable pub add_to_day : List Day → StoredMatch → List Day
  add_to_day [] m = count_in_day m (new_day m.ts) ∷ []
  add_to_day (d ∷ ds) m =
      let rest = add_to_day ds m in
      if text_eq d.day (day_key m.ts) then count_in_day m d ∷ ds else d ∷ rest

  unfoldable pub add_days : List Day → List StoredMatch → List Day
  add_days ds [] = ds
  add_days ds (m ∷ ms) = add_days (add_to_day ds m) ms

  -- The point of the day in which `t` lies.
  unfoldable pub point_at : List Day → ℕ → DailyPoint
  point_at days t = elim (find (λ d. text_eq d.day (day_key t)) days) [
    | some d ↦ record {
      day = drop 5 (day_key t);
      ts = d.ts;
      queries = d.queries;
      hits = d.hits;
      mean_latency = mean d.latencies;
      mean_top_score = mean d.top_scores;
    }
    | none ↦ record {
      day = drop 5 (day_key t);
      ts = t;
      queries = 0;
      hits = 0;
      mean_latency = (0, 0);
      mean_top_score = (0, 0);
    }
  ]

  -- `for (let t = first; t <= last; t += oneDay)` with fuel.
  unfoldable pub points_from : ℕ → List Day → ℕ → ℕ → List DailyPoint
  points_from zero days t last = []
  points_from (suc fuel) days t last =
      let rest = points_from fuel days (t + one_day) last in
      if leb t last then point_at days t ∷ rest else []

  unfoldable pub points_of : List Day → List Day → List DailyPoint
  points_of days [] = []
  points_of days (d ∷ ds) =
      let last = last_ts d.ts ds in points_from (suc (suc (last / one_day))) days d.ts last

  unfoldable pub day_points : List StoredMatch → List DailyPoint
  day_points ms = let days = add_days [] ms in points_of days (sort_by earlier days)
