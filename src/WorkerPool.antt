-- ===== src/WorkerPool.antt =====
-- The worker pool inside `bulkDelete` and `bulkAddTags` of web/app/history/page.tsx: up to six
-- workers share the index `i` of the next item and the count of failed requests.
-- Between two awaits a worker is not interrupted, so one step of the pool is the answer to one
-- request: the worker that waited for it takes its next item or returns.
pub mod Answers
pub mod Progress
use clawhum.Prelude.{
  ℕ, zero, suc, min, Bool, true, false, Option, none, some, List, [], ◌∷◌, ◌++◌, ◌≡◌, if◌then◌else◌,
  length, get_elem?,
}

-- `requested` are the items whose request was sent, the oldest first. A worker is the item whose
-- answer it awaits, or `none` when it has returned.
pub record Pool {ℓ} (A : Type ℓ) : Type ℓ where
  pub next : ℕ
  pub failed : ℕ
  pub requested : List A
  pub workers : List (Option A)

-- `const limit = 6`
abbrev pub limit : ℕ
limit = 6

module _ {ℓ} {A : Type ℓ} where
  -- A worker from its test `i < items.length` to its next `await`: the item it requests, if any.
  unfoldable pub proceed : List A → Pool A → Pool A × Option A
  proceed items p = elim (get_elem? items p.next) [
    | none ↦ (p, none)
    | some it ↦ (record p { next = suc p.next; requested = p.requested ++ it ∷ [] }, some it)
  ]

  -- `Array.from({ length: n }, worker)`
  unfoldable pub start_workers : ℕ → List A → Pool A → Pool A
  unfolding proceed
  start_workers zero items p = p
  start_workers (suc n) items p =
      let r = proceed items p in
      start_workers n items (record r.0 { workers = p.workers ++ r.1 ∷ [] })

  abbrev pub empty_pool : Pool A
  empty_pool = record { next = 0; failed = 0; requested = []; workers = [] }

  unfoldable pub start_pool : List A → Pool A
  unfolding start_workers
  start_pool items = start_workers (min limit (length items)) items empty_pool

  abbrev pub set_worker : List (Option A) → ℕ → Option A → List (Option A)
  set_worker [] k w = []
  set_worker (v ∷ ws) zero w = w ∷ ws
  set_worker (v ∷ ws) (suc k) w = v ∷ set_worker ws k w

  -- The request of worker `k` is answered: it counts a failure, and goes on.
  unfoldable pub resume : List A → ℕ → Bool → Pool A → Pool A
  unfolding proceed
  resume items k ok p =
      let r = proceed items (record p { failed = if ok then p.failed else suc p.failed }) in
      record r.0 { workers = set_worker p.workers k r.1 }

  -- The items that the workers wait for.
  abbrev pub awaited : List (Option A) → List A
  awaited [] = []
  awaited (none ∷ ws) = awaited ws
  awaited (some it ∷ ws) = it ∷ awaited ws

-- The answers that take a pool to another, in the order in which they arrive, each with its item
-- and whether `r.ok`; any request in flight may be answered next.
pub data Run {ℓ} {A : Type ℓ} (items : List A) : Pool A → List (A × Bool) → Pool A → Type ℓ where
  stop : {p : Pool A} → Run items p [] p
  answered :
      {p q : Pool A} {log : List (A × Bool)} (k : ℕ) (it : A) (ok : Bool)
      → get_elem? p.workers k ≡ some (some it)
      → Run items (resume items k ok p) log q
      → Run items p ((it, ok) ∷ log) q
