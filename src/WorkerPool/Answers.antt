-- ===== src/WorkerPool/Answers.antt =====
-- What holds of the worker pool of web/app/history/page.tsx after any answers, in any order.
use clawhum.Prelude.{
  ℕ, zero, suc, ◌+◌, ◌≤◌, Bool, true, ◌⊎◌, inl, inr, Option, none, some, List, [], ◌∷◌, ◌++◌, map,
  ◌≡◌, refl, sym, ◌∙◌, ap, arith, if◌then◌else◌, length, get_elem?, filter, take, Option-cases,
  length-append, filter-append,
}
use clawhum.WorkerPool.{Pool, Run, stop, answered, proceed, set_worker, resume, awaited}

module _ {ℓ} {A : Type ℓ} where
  take-next :
      (xs : List A) (n : ℕ) (x : A)
      → get_elem? xs n ≡ some x
      → take (suc n) xs ≡ take n xs ++ x ∷ []
  take-next (y ∷ xs) zero x h = ground arith
  take-next (y ∷ xs) (suc n) x h = ap (λ l. y ∷ l) (take-next xs n x h)
  take-next [] n x h = absurd (cc)

  lt-get_elem : (xs : List A) (n : ℕ) (x : A) → get_elem? xs n ≡ some x → suc n ≤ length xs
  lt-get_elem (y ∷ xs) zero x h = omega arith
  lt-get_elem (y ∷ xs) (suc n) x h = omega (arith, lt-get_elem xs n x h)
  lt-get_elem [] n x h = absurd (cc)

  ge-get_elem : (xs : List A) (n : ℕ) → get_elem? xs n ≡ none → length xs ≤ n
  ge-get_elem [] n h = omega arith
  ge-get_elem (y ∷ xs) zero h = absurd (cc)
  ge-get_elem (y ∷ xs) (suc n) h = omega (arith, ge-get_elem xs n h)

  -- What the counters of a pool say, at any time: the requests went to the first `next` items, in
  -- order, and a worker that has returned found no item.
  pub record IsSound (items : List A) (w : ℕ) (p : Pool A) : Type ℓ where
    pub in_order : p.requested ≡ take p.next items
    pub in_range : p.next ≤ length items
    pub all_workers : length p.workers ≡ w
    pub returned_late : (length (awaited p.workers) ≡ w) ⊎ (p.next ≡ length items)

  pub length-awaited-le : (ws : List (Option A)) → length (awaited ws) ≤ length ws
  length-awaited-le [] = omega arith
  length-awaited-le (none ∷ ws) = omega (arith, length-awaited-le ws)
  length-awaited-le (some it ∷ ws) = omega (arith, length-awaited-le ws)

  length-set_worker :
      (ws : List (Option A)) (k : ℕ) (w : Option A) → length (set_worker ws k w) ≡ length ws
  length-set_worker [] k w = refl
  length-set_worker (v ∷ ws) zero w = refl
  length-set_worker (v ∷ ws) (suc k) w = ap suc (length-set_worker ws k w)

  some-inj : (a b : A) → some (some a) ≡ some (some b) → a ≡ b
  some-inj a b h = cc

  -- Setting a worker that awaits `it` exchanges `it` for what the worker awaits then.
  awaited-set_worker :
      (f : A → Bool) (ws : List (Option A)) (k : ℕ) (it : A) (w : Option A)
      → get_elem? ws k ≡ some (some it)
      → length (filter f (awaited (set_worker ws k w))) + length (filter f (it ∷ []))
        ≡ length (filter f (awaited ws)) + length (filter f (awaited (w ∷ [])))
  awaited-set_worker f [] k it w h = absurd (cc)
  awaited-set_worker f (none ∷ ws) zero it w h = absurd (cc)
  awaited-set_worker f (some a ∷ ws) zero it none h = rw (some-inj a it h) (ground arith)
  awaited-set_worker f (some a ∷ ws) zero it (some b) h = rw (some-inj a it h) (ground arith)
  awaited-set_worker f (none ∷ ws) (suc k) it w h = awaited-set_worker f ws k it w h
  awaited-set_worker f (some a ∷ ws) (suc k) it w h =
      ground (arith, awaited-set_worker f ws k it w h)

  pub filter-true : (xs : List A) → filter (λ _. true) xs ≡ xs
  filter-true [] = refl
  filter-true (x ∷ xs) = ap (λ l. x ∷ l) (filter-true xs)

  length-awaited-set_worker :
      (ws : List (Option A)) (k : ℕ) (it : A) (w : Option A)
      → get_elem? ws k ≡ some (some it)
      → suc (length (awaited (set_worker ws k w))) ≡ length (awaited ws) + length (awaited (w ∷ []))
  length-awaited-set_worker ws k it w h = omega (
    arith,
    awaited-set_worker (λ _. true) ws k it w h,
    ap length (filter-true (awaited (set_worker ws k w))),
    ap length (filter-true (awaited ws)),
    ap length (filter-true (awaited (w ∷ []))),
  )

  pub proceed-cases :
      (items : List A) (p : Pool A)
      → ((length items ≤ p.next) × (proceed items p ≡ (p, none)))
        ⊎ ((it : A) × (suc p.next ≤ length items)
            × (take (suc p.next) items ≡ take p.next items ++ it ∷ [])
            × (proceed items p
                ≡ (record p { next = suc p.next; requested = p.requested ++ it ∷ [] }, some it)))
  unfolding proceed
  proceed-cases items p = elim (Option-cases (get_elem? items p.next)) [
    | inl h ↦ inl (ge-get_elem items p.next h, rw (h, proceed) refl)
    | inr (it, h) ↦
        inr (it, lt-get_elem items p.next it h, take-next items p.next it h, rw (h, proceed) refl)
  ]

  pub resume-IsSound :
      (items : List A) (w k : ℕ) (it : A) (ok : Bool) (p : Pool A)
      → get_elem? p.workers k ≡ some (some it)
      → IsSound items w p
      → IsSound items w (resume items k ok p)
  unfolding resume
  resume-IsSound items w k it ok p h s =
      let p' = record p { failed = if ok then p.failed else suc p.failed } in
      elim (proceed-cases items p') [
        | inl (ge, e) ↦ rw e (record {
          in_order = s.in_order;
          in_range = s.in_range;
          all_workers = length-set_worker p.workers k none ∙ s.all_workers;
          returned_late = inr (omega (arith, s.in_range));
        })
        | inr (x, lt, more, e) ↦ rw e (record {
          in_order = ap (λ l. l ++ x ∷ []) s.in_order ∙ sym more;
          in_range = lt;
          all_workers = length-set_worker p.workers k (some x) ∙ s.all_workers;
          returned_late = elim s.returned_late [
            | inl r ↦ inl (omega (arith, length-awaited-set_worker p.workers k it (some x) h))
            | inr r ↦ absurd (omega arith)
          ];
        })
      ]

  -- One answer exchanges, among the items in flight, the answered item for the newly requested one.
  pub resume-step :
      (f : A → Bool) (items : List A) (k : ℕ) (it : A) (ok : Bool) (p : Pool A)
      → get_elem? p.workers k ≡ some (some it)
      → let q = resume items k ok p in
        (length (filter f q.requested) + length (filter f (awaited p.workers))
          ≡ length (filter f p.requested)
            + (length (filter f (it ∷ [])) + length (filter f (awaited q.workers))))
        × (q.failed ≡ (if ok then p.failed else suc p.failed))
  unfolding resume
  resume-step f items k it ok p h =
      let p' = record p { failed = if ok then p.failed else suc p.failed } in
      elim (proceed-cases items p') [
        | inl (ge, e) ↦
            rw (resume, e) (omega (arith, awaited-set_worker f p.workers k it none h), refl)
        | inr (x, lt, more, e) ↦
            rw (resume, e)
              (
                omega (
                  arith,
                  awaited-set_worker f p.workers k it (some x) h,
                  ap length (filter-append f p.requested (x ∷ [])),
                  length-append (filter f p.requested) (filter f (x ∷ [])),
                ),
                refl,
              )
      ]

  abbrev pub failures : List (A × Bool) → ℕ
  failures [] = 0
  failures ((it, ok) ∷ log) = if ok then failures log else suc (failures log)

  abbrev pub items_of : List (A × Bool) → List A
  items_of log = map (λ a. a.0) log

  pub Run-IsSound :
      (items : List A) (w : ℕ) {p q : Pool A} {log : List (A × Bool)}
      → Run items p log q
      → IsSound items w p
      → IsSound items w q
  Run-IsSound items w stop s = s
  Run-IsSound items w (answered k it ok h r) s =
      Run-IsSound items w r (resume-IsSound items w k it ok _ h s)

  pub Run-failed :
      (items : List A) {p q : Pool A} {log : List (A × Bool)}
      → Run items p log q
      → q.failed ≡ p.failed + failures log
  Run-failed items stop = omega arith
  Run-failed items (answered {p} k it ok h r) =
      ground (arith, Run-failed items r, (resume-step (λ _. true) items k it ok p h).1)

  pub Run-requested :
      (f : A → Bool) (items : List A) {p q : Pool A} {log : List (A × Bool)}
      → Run items p log q
      → length (filter f q.requested) + length (filter f (awaited p.workers))
        ≡ length (filter f p.requested)
          + (length (filter f (items_of log)) + length (filter f (awaited q.workers)))
  Run-requested f items stop = omega arith
  Run-requested f items (answered {p} k it ok h r) =
      ground (arith, Run-requested f items r, (resume-step f items k it ok p h).0)
