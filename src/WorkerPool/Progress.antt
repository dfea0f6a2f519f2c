-- ===== src/WorkerPool/Progress.antt =====
-- That the worker pool of web/app/history/page.tsx handles every item once and comes to its end.
use clawhum.Prelude.{
  ℕ, zero, suc, ◌+◌, ◌-◌, ◌≤◌, ◌↔◌, min, Bool, true, ◌⊎◌, inl, inr, Option, none, some, List, [],
  ◌∷◌, ◌++◌, map, ◌≡◌, refl, sym, ◌∙◌, ap, arith, length, get_elem?, filter, take, length-append,
  length-take, take_of_length-le, length-map,
}
use clawhum.WorkerPool.{
  Pool, Run, stop, answered, limit, start_workers, start_pool, empty_pool, resume, awaited,
}
use clawhum.WorkerPool.Answers.{
  IsSound, proceed-cases, resume-IsSound, resume-step, failures, items_of, filter-true, Run-IsSound,
  Run-failed, Run-requested, length-awaited-le,
}

module _ {ℓ} {A : Type ℓ} where
  awaited-append : (ws vs : List (Option A)) → awaited (ws ++ vs) ≡ awaited ws ++ awaited vs
  awaited-append [] vs = refl
  awaited-append (none ∷ ws) vs = awaited-append ws vs
  awaited-append (some it ∷ ws) vs = ap (λ l. it ∷ l) (awaited-append ws vs)

  awaited-snoc_none : (ws : List (Option A)) → awaited (ws ++ none ∷ []) ≡ awaited ws
  awaited-snoc_none [] = refl
  awaited-snoc_none (none ∷ ws) = awaited-snoc_none ws
  awaited-snoc_none (some it ∷ ws) = ap (λ l. it ∷ l) (awaited-snoc_none ws)

  start_workers-IsSound :
      (n : ℕ) (items : List A) (w w' : ℕ) (p : Pool A)
      → IsSound items w p
      → n + w ≡ w'
      → IsSound items w' (start_workers n items p)
  unfolding start_workers
  start_workers-IsSound zero items w w' p s e = record {
    in_order = s.in_order;
    in_range = s.in_range;
    all_workers = omega (arith, s.all_workers);
    returned_late = ground (arith, s.returned_late);
  }
  start_workers-IsSound (suc n) items w w' p s e = elim (proceed-cases items p) [
    | inl (ge, r) ↦ rw r (
        start_workers-IsSound n items (suc w) w' _
          (record {
            in_order = s.in_order;
            in_range = s.in_range;
            all_workers = omega (arith, length-append p.workers (none ∷ []), s.all_workers);
            returned_late = inr (omega (arith, s.in_range));
          })
          (omega arith))
    | inr (x, lt, more, r) ↦ rw r (
        start_workers-IsSound n items (suc w) w' _
          (record {
            in_order = ap (λ l. l ++ x ∷ []) s.in_order ∙ sym more;
            in_range = lt;
            all_workers = omega (arith, length-append p.workers (some x ∷ []), s.all_workers);
            returned_late = elim s.returned_late [
              | inl a ↦ inl (
                  omega (
                    arith,
                    ap length (awaited-append p.workers (some x ∷ [])),
                    length-append (awaited p.workers) (x ∷ []),
                  ))
              | inr a ↦ absurd (omega arith)
            ];
          })
          (omega arith))
  ]

  start_workers-requested :
      (n : ℕ) (items : List A) (p : Pool A)
      → p.requested ≡ awaited p.workers
      → let q = start_workers n items p in (q.requested ≡ awaited q.workers) × (q.failed ≡ p.failed)
  unfolding start_workers
  start_workers-requested zero items p e = (e, refl)
  start_workers-requested (suc n) items p e = elim (proceed-cases items p) [
    | inl (ge, r) ↦
        rw (start_workers, r)
          (start_workers-requested n items _ (e ∙ sym (awaited-snoc_none p.workers)))
    | inr (x, lt, more, r) ↦
        rw (start_workers, r)
          (start_workers-requested n items _
            (ap (λ l. l ++ x ∷ []) e ∙ sym (awaited-append p.workers (some x ∷ []))))
  ]

  start_pool-IsSound :
      (items : List A) → IsSound items (min limit (length items)) (start_pool items)
  unfolding start_pool
  start_pool-IsSound items =
      start_workers-IsSound (min limit (length items)) items 0 _ empty_pool
        (record {
          in_order = refl;
          in_range = omega arith;
          all_workers = refl;
          returned_late = inl refl;
        })
        (omega arith)

  -- The answers that the pool has had, from its start.
  Run-answered :
      (f : A → Bool) (items : List A) {q : Pool A} {log : List (A × Bool)}
      → Run items (start_pool items) log q
      → (length (filter f q.requested)
          ≡ length (filter f (items_of log)) + length (filter f (awaited q.workers)))
        × (q.failed ≡ failures log)
  Run-answered f items r =
      unfold start_pool in
      let s = start_workers-requested (min limit (length items)) items empty_pool refl in
      (
        omega (arith, Run-requested f items r, ap (λ l. length (filter f l)) s.0),
        omega (arith, Run-failed items r, s.1),
      )

  -- At any time, whatever the answers were and in whichever order they came: the requests went to
  -- the first items of the list, in order and once each; at most six are in flight; each requested
  -- item is answered or in flight; and the count of failures is that of the failed answers.
  pub Run-requests :
      (items : List A) (q : Pool A) (log : List (A × Bool))
      → Run items (start_pool items) log q
      → (q.requested ≡ take q.next items)
        × (length (awaited q.workers) ≤ limit)
        × ((f : A → Bool)
            → length (filter f q.requested)
              ≡ length (filter f (items_of log)) + length (filter f (awaited q.workers)))
        × (q.failed ≡ failures log)
  Run-requests items q log r =
      let s = Run-IsSound items _ r (start_pool-IsSound items) in
      (
        s.in_order,
        omega (arith, length-awaited-le q.workers, s.all_workers),
        (λ f. (Run-answered f items r).0),
        (Run-answered (λ _. true) items r).1,
      )

  length-requested :
      (items : List A) (w : ℕ) (p : Pool A) → IsSound items w p → length p.requested ≡ p.next
  length-requested items w p s =
      omega (arith, ap length s.in_order, length-take p.next items, s.in_range)

  -- The answers that are still to come.
  abbrev pub remaining : List A → Pool A → ℕ
  remaining items p = length items - p.next + length (awaited p.workers)

  remaining-resume :
      (items : List A) (w k : ℕ) (it : A) (ok : Bool) (p : Pool A)
      → get_elem? p.workers k ≡ some (some it)
      → IsSound items w p
      → remaining items p ≡ suc (remaining items (resume items k ok p))
  remaining-resume items w k it ok p h s =
      let q = resume items k ok p in
      let t = resume-IsSound items w k it ok p h s in
      omega (
        arith,
        (resume-step (λ _. true) items k it ok p h).0,
        length-requested items w p s,
        length-requested items w q t,
        s.in_range,
        t.in_range,
        ap length (filter-true p.requested),
        ap length (filter-true q.requested),
        ap length (filter-true (awaited p.workers)),
        ap length (filter-true (awaited q.workers)),
      )

  Run-remaining :
      (items : List A) (w : ℕ) {p q : Pool A} {log : List (A × Bool)}
      → Run items p log q
      → IsSound items w p
      → remaining items p ≡ length log + remaining items q
  Run-remaining items w stop s = omega arith
  Run-remaining items w (answered {p} k it ok h r) s = omega (
    arith,
    remaining-resume items w k it ok p h s,
    Run-remaining items w r (resume-IsSound items w k it ok p h s),
  )

  remaining-start : (items : List A) → remaining items (start_pool items) ≡ length items
  unfolding start_pool
  remaining-start items =
      let s = start_pool-IsSound items in
      omega (
        arith,
        length-requested items _ (start_pool items) s,
        ap length (start_workers-requested (min limit (length items)) items empty_pool refl).0,
        s.in_range,
      )

  nothing_left : (l : List A) → length l ≡ 0 → l ≡ []
  nothing_left [] h = refl
  nothing_left (x ∷ l) h = absurd (omega arith)

  -- A worker returns only at the end of the list.
  at_end :
      (items : List A) (q : Pool A)
      → IsSound items (min limit (length items)) q
      → awaited q.workers ≡ []
      → q.next ≡ length items
  at_end items q s e =
      ground (
        arith,
        s.returned_late,
        s.in_range,
        s.all_workers,
        ap length e,
        length-awaited-le q.workers,
      )

  counted :
      (items : List A) (q : Pool A) (log : List (A × Bool))
      → Run items (start_pool items) log q
      → length items ≡ length log + remaining items q
  counted items q log r =
      omega (arith, Run-remaining items _ r (start_pool-IsSound items), remaining-start items)

  -- The pool ends: in whatever order the answers come, a run has at most as many answers as there
  -- are items, and it has that many exactly when no request is in flight any more.
  pub Run-ends :
      (items : List A) (q : Pool A) (log : List (A × Bool))
      → Run items (start_pool items) log q
      → (length log ≤ length items) × ((awaited q.workers ≡ []) ↔ (length log ≡ length items))
  Run-ends items q log r =
      let s = Run-IsSound items _ r (start_pool-IsSound items) in
      let c = counted items q log r in
      (
        omega (arith, c),
        (
          (λ e. omega (arith, c, ap length e, at_end items q s e)),
          (λ e. nothing_left (awaited q.workers) (omega (arith, c, s.in_range))),
        ),
      )

  -- When no request is in flight any more, every item was requested, in order, every item was
  -- answered exactly once, and the count of failures is that of the failed answers.
  pub Run-finished :
      (items : List A) (q : Pool A) (log : List (A × Bool))
      → Run items (start_pool items) log q
      → awaited q.workers ≡ []
      → (q.requested ≡ items)
        × ((f : A → Bool) → length (filter f (items_of log)) ≡ length (filter f items))
        × (q.failed ≡ failures log)
  Run-finished items q log r e =
      let s = Run-IsSound items _ r (start_pool-IsSound items) in
      let all_requested =
        s.in_order ∙ take_of_length-le q.next items (omega (arith, at_end items q s e)) in
      (
        all_requested,
        (λ f. omega (
          arith,
          (Run-answered f items r).0,
          ap (λ l. length (filter f l)) all_requested,
          ap (λ l. length (filter f l)) e,
        )),
        (Run-answered (λ _. true) items r).1,
      )

  waiting_worker :
      (ws : List (Option A))
      → (awaited ws ≡ []) ⊎ ((k : ℕ) × (it : A) × (get_elem? ws k ≡ some (some it)))
  waiting_worker [] = inl refl
  waiting_worker (some it ∷ ws) = inr (0, it, refl)
  waiting_worker (none ∷ ws) = elim (waiting_worker ws) [
    | inl e ↦ inl e
    | inr (k, it, e) ↦ inr (suc k, it, e)
  ]

  abbrev pub answered_by : (A → Bool) → List A → List (A × Bool)
  answered_by answer its = map (λ it. (it, answer it)) its

  completes :
      (n : ℕ) (items : List A) (w : ℕ) (answer : A → Bool) (p : Pool A)
      → IsSound items w p
      → remaining items p ≤ n
      → (its : List A) × (q : Pool A) × Run items p (answered_by answer its) q
        × (awaited q.workers ≡ [])
  completes zero items w answer p s h =
      ([], p, stop, nothing_left (awaited p.workers) (omega arith))
  completes (suc n) items w answer p s h = elim (waiting_worker p.workers) [
    | inl e ↦ ([], p, stop, e)
    | inr (k, it, e) ↦
        let left = remaining-resume items w k it (answer it) p e s in
        let rest =
          completes n items w answer (resume items k (answer it) p)
            (resume-IsSound items w k it (answer it) p e s) (omega (arith, left)) in
        (it ∷ rest.0, rest.1, answered k it (answer it) e rest.2, rest.3)
  ]

  -- The pool never hangs: after any answers, whatever the server says to each of the requests that
  -- are in flight or still to come, there are further answers that end with nothing in flight.
  pub Run-completes :
      (items : List A) (p : Pool A) (log : List (A × Bool)) (answer : A → Bool)
      → Run items (start_pool items) log p
      → (its : List A) × (q : Pool A) × Run items p (answered_by answer its) q
        × (awaited q.workers ≡ [])
        × (length log + length its ≡ length items)
  Run-completes items p log answer r =
      let s = Run-IsSound items _ r (start_pool-IsSound items) in
      let (its, q, run, e) = completes (remaining items p) items _ answer p s (omega arith) in
      (
        its,
        q,
        run,
        e,
        omega (
          arith,
          Run-remaining items _ r (start_pool-IsSound items),
          remaining-start items,
          Run-remaining items _ run s,
          length-map {B = A × Bool} its (λ it. (it, answer it)),
          at_end items q (Run-IsSound items _ run s) e,
          ap length e,
        ),
      )
