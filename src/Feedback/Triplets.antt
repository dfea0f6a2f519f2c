-- ===== src/Feedback/Triplets.antt =====
-- What the triplets of web/app/feedback/page.tsx count.
use mathlib.Core.Path.{subst}
use clawhum.Prelude.{
  ◌+◌, ◌*◌, Bool, true, false, ◌&&◌, List, [], ◌∷◌, map, if◌then◌else◌, length, filter, ◌≡◌, refl,
  sym, ◌∙◌, ap, arith, inl, inr, Bool-cases, length-append, length-map, length-filter-append,
}
use clawhum.Prelude.Text.{Text, text_eq, eq_iff, text_eq_refl}
use clawhum.BulkSelect.{add_all}
use clawhum.Feedback.{
  reject, neutral, confirm, FeedbackRow, Bucket, empty_bucket, Triplet, push_vote, file_row,
  file_rows, with_negatives, with_positives, triplets_of, count_pairs, build_triplets,
}
use clawhum.Prelude.TextSet.{has, add, Distinct, Distinct-add}

-- A row that confirms, or rejects, the track `t` for the query `q`.
abbrev pub is_confirm : Text → Text → FeedbackRow → Bool
is_confirm q t r = elim r.vote [
  | confirm ↦ text_eq r.query_id q && text_eq r.track_id t
  | reject ↦ false
  | neutral ↦ false
]

abbrev pub is_reject : Text → Text → FeedbackRow → Bool
is_reject q t r = elim r.vote [
  | reject ↦ text_eq r.query_id q && text_eq r.track_id t
  | confirm ↦ false
  | neutral ↦ false
]

abbrev pub is_triplet : Text → Text → Text → Triplet → Bool
is_triplet q t u x = text_eq x.anchor q && text_eq x.positive t && text_eq x.negative u

abbrev pub names : Text → FeedbackRow → Bool
names t r = text_eq r.track_id t

-- The bucket of a query, empty where there is none.
bucket_of : Text → List (Text × Bucket) → Bucket
bucket_of q [] = empty_bucket
bucket_of q ((k, b) ∷ m) = if text_eq k q then b else bucket_of q m

queries_of : List (Text × Bucket) → List Text
queries_of m = map (λ e. e.0) m

bucket-file_row :
    (q : Text) (r : FeedbackRow) (m : List (Text × Bucket))
    → bucket_of q (file_row r m)
      ≡ (if text_eq r.query_id q then push_vote r.vote r (bucket_of q m) else bucket_of q m)
unfolding file_row bucket_of
bucket-file_row q r [] = refl
bucket-file_row q r ((k, b) ∷ m) = elim (Bool-cases (text_eq k r.query_id)) [
  | inl e ↦ rw ((eq_iff k r.query_id).0 e) (ground (arith, text_eq_refl r.query_id))
  | inr e ↦
      rw e (
        ground (arith, bucket-file_row q r m, eq_iff k q, eq_iff r.query_id q, eq_iff k r.query_id))
]

queries-file_row :
    (r : FeedbackRow) (m : List (Text × Bucket))
    → queries_of (file_row r m) ≡ add (queries_of m) r.query_id
unfolding file_row queries_of
queries-file_row r [] = refl
queries-file_row r ((k, b) ∷ m) = ground (arith, queries-file_row r m)

Distinct-file_rows :
    (rs : List FeedbackRow) (m : List (Text × Bucket))
    → Distinct (queries_of m)
    → Distinct (queries_of (file_rows rs m))
unfolding file_rows
Distinct-file_rows [] m d = d
Distinct-file_rows (r ∷ rs) m d =
    Distinct-file_rows rs (file_row r m)
      (subst Distinct (sym (queries-file_row r m)) (Distinct-add (queries_of m) r.query_id d))

count-with_negatives :
    (q t u k : Text) (p : FeedbackRow) (ns : List FeedbackRow)
    → length (filter (is_triplet q t u) (with_negatives k p ns))
      ≡ (if text_eq k q && names t p then length (filter (names u) ns) else 0)
unfolding with_negatives
count-with_negatives q t u k p [] = ground arith
count-with_negatives q t u k p (n ∷ ns) = ground (arith, count-with_negatives q t u k p ns)

count-with_positives :
    (q t u k : Text) (ps ns : List FeedbackRow)
    → length (filter (is_triplet q t u) (with_positives k ps ns))
      ≡ (if text_eq k q then length (filter (names t) ps) * length (filter (names u) ns) else 0)
unfolding with_positives
count-with_positives q t u k [] ns = ground arith
count-with_positives q t u k (p ∷ ps) ns =
    length-filter-append (is_triplet q t u) (with_negatives k p ns) (with_positives k ps ns)
    ∙ elim (Bool-cases (text_eq p.track_id t)) [
      | inl e ↦
          rw (e, count-with_positives q t u k ps ns, count-with_negatives q t u k p ns, e)
            (ground (arith))
      | inr e ↦
          rw (e, count-with_positives q t u k ps ns, count-with_negatives q t u k p ns, e)
            (ground (arith))
    ]

bucket-missing :
    (q : Text) (m : List (Text × Bucket))
    → has (queries_of m) q ≡ false
    → bucket_of q m ≡ empty_bucket
unfolding bucket_of queries_of
bucket-missing q [] h = refl
bucket-missing q ((k, b) ∷ m) h = ground (arith, bucket-missing q m)

count-triplets_of :
    (q t u : Text) (m : List (Text × Bucket))
    → Distinct (queries_of m)
    → length (filter (is_triplet q t u) (triplets_of m))
      ≡ length (filter (names t) (bucket_of q m).pos)
        * length (filter (names u) (bucket_of q m).neg)
unfolding triplets_of bucket_of queries_of
count-triplets_of q t u [] d = omega arith
count-triplets_of q t u ((k, b) ∷ m) (e, d) =
    length-filter-append (is_triplet q t u) (with_positives k b.pos b.neg) (triplets_of m)
    ∙ elim (Bool-cases (text_eq k q)) [
      | inl h ↦
          rw ((eq_iff k q).0 h, text_eq_refl q)
            (ground (
              arith,
              count-with_positives q t u q b.pos b.neg,
              text_eq_refl q,
              count-triplets_of q t u m d,
              bucket-missing q m (rw (sym ((eq_iff k q).0 h)) e),
            ))
      | inr h ↦
          rw h (
            ground
              (arith, h, count-with_positives q t u k b.pos b.neg, count-triplets_of q t u m d))
    ]

confirms-file_row :
    (q t : Text) (r : FeedbackRow) (m : List (Text × Bucket))
    → length (filter (names t) (bucket_of q (file_row r m)).pos)
      ≡ length (filter (names t) (bucket_of q m).pos) + length (filter (is_confirm q t) (r ∷ []))
unfolding push_vote
confirms-file_row q t r m =
    rw (bucket-file_row q r m)
      (ground (arith, length-filter-append (names t) (bucket_of q m).pos (r ∷ [])))

rejects-file_row :
    (q t : Text) (r : FeedbackRow) (m : List (Text × Bucket))
    → length (filter (names t) (bucket_of q (file_row r m)).neg)
      ≡ length (filter (names t) (bucket_of q m).neg) + length (filter (is_reject q t) (r ∷ []))
unfolding push_vote
rejects-file_row q t r m =
    rw (bucket-file_row q r m)
      (ground (arith, length-filter-append (names t) (bucket_of q m).neg (r ∷ [])))

votes-file_rows :
    (q t : Text) (rs : List FeedbackRow) (m : List (Text × Bucket))
    → (length (filter (names t) (bucket_of q (file_rows rs m)).pos)
        ≡ length (filter (names t) (bucket_of q m).pos) + length (filter (is_confirm q t) rs))
      × (length (filter (names t) (bucket_of q (file_rows rs m)).neg)
          ≡ length (filter (names t) (bucket_of q m).neg) + length (filter (is_reject q t) rs))
unfolding file_rows
votes-file_rows q t [] m = (omega arith, omega arith)
votes-file_rows q t (r ∷ rs) m =
    let (c, n) = votes-file_rows q t rs (file_row r m) in
    (
      omega
          (arith, c, confirms-file_row q t r m, length-filter-append (is_confirm q t) (r ∷ []) rs),
      omega (arith, n, rejects-file_row q t r m, length-filter-append (is_reject q t) (r ∷ []) rs),
    )

-- A triplet of a query, a track and another track is exported once for each pair of a row that
-- confirms the one and a row that rejects the other, both for that query.
pub build_triplets-count :
    (rows : List FeedbackRow) (q t u : Text)
    → length (filter (is_triplet q t u) (build_triplets rows).0)
      ≡ length (filter (is_confirm q t) rows) * length (filter (is_reject q u) rows)
unfolding build_triplets queries_of bucket_of
build_triplets-count rows q t u =
    count-triplets_of q t u (file_rows rows []) (Distinct-file_rows rows [] tt)
    ∙ rw ((votes-file_rows q t rows []).0, (votes-file_rows q u rows []).1) (ground arith)

abbrev pub confirms : FeedbackRow → Bool
confirms r = elim r.vote [ reject ↦ false | neutral ↦ false | confirm ↦ true ]

abbrev pub rejects : FeedbackRow → Bool
rejects r = elim r.vote [ reject ↦ true | neutral ↦ false | confirm ↦ false ]

count_pairs-file_row :
    (r : FeedbackRow) (m : List (Text × Bucket))
    → ((count_pairs (file_row r m)).0 ≡ (count_pairs m).0 + length (filter confirms (r ∷ [])))
      × ((count_pairs (file_row r m)).1 ≡ (count_pairs m).1 + length (filter rejects (r ∷ [])))
unfolding file_row push_vote count_pairs
count_pairs-file_row r [] = ground arith
count_pairs-file_row r ((q, b) ∷ m) =
    ground
      (arith, count_pairs-file_row r m, length-append b.pos (r ∷ []), length-append b.neg (r ∷ []))

count_pairs-file_rows :
    (rs : List FeedbackRow) (m : List (Text × Bucket))
    → ((count_pairs (file_rows rs m)).0 ≡ (count_pairs m).0 + length (filter confirms rs))
      × ((count_pairs (file_rows rs m)).1 ≡ (count_pairs m).1 + length (filter rejects rs))
unfolding file_rows
count_pairs-file_rows [] m = (omega arith, omega arith)
count_pairs-file_rows (r ∷ rs) m =
    let (c, n) = count_pairs-file_rows rs (file_row r m) in
    let (c', n') = count_pairs-file_row r m in
    (
      omega (arith, c, c', length-filter-append confirms (r ∷ []) rs),
      omega (arith, n, n', length-filter-append rejects (r ∷ []) rs),
    )

queries-file_rows :
    (rs : List FeedbackRow) (m : List (Text × Bucket))
    → queries_of (file_rows rs m)
      ≡ add_all (queries_of m) (map (λ (r : FeedbackRow). r.query_id) rs)
unfolding file_rows add_all
queries-file_rows [] m = refl
queries-file_rows (r ∷ rs) m =
    queries-file_rows rs (file_row r m)
    ∙ ap (λ l. add_all l (map (λ (r : FeedbackRow). r.query_id) rs)) (queries-file_row r m)

-- The counts shown with the triplets are those of the rows that confirm, of the rows that reject, and
-- of the different queries.
pub build_triplets-pairs :
    (rows : List FeedbackRow)
    → let p = (build_triplets rows).1 in
      (p.positives ≡ length (filter confirms rows))
      × (p.negatives ≡ length (filter rejects rows))
      × (p.queries ≡ length (add_all [] (map (λ (r : FeedbackRow). r.query_id) rows)))
unfolding build_triplets queries_of count_pairs
build_triplets-pairs rows = (
  omega (arith, (count_pairs-file_rows rows []).0),
  omega (arith, (count_pairs-file_rows rows []).1),
  sym (length-map (file_rows rows []) (λ e. e.0)) ∙ ap length (queries-file_rows rows []),
)
