-- ===== src/Batch/Sending.antt =====
-- What web/app/batch/page.tsx sends.
use mathlib.Core.Path.{subst}
use clawhum.Prelude.{
  ℕ, ◌*◌, ◌≤◌, true, false, inl, inr, Option, none, some, List, [], ◌∷◌, ltb, ◌≡◌, arith,
  Bool-cases, Option-cases,
}
use clawhum.Prelude.Text.{Text, codes, lower, ends_with}
use clawhum.Toast.{Store}
use clawhum.Batch.{
  ArchiveFile, BatchPage, BatchAnswer, threw, refused, downloaded, replied, max_zip_mb, on_pick,
  set_top_k, run_begin, run_failed, run_end,
}

-- A file that the page may send.
abbrev pub IsArchive : Option ArchiveFile → Type 0
IsArchive none = Unit
IsArchive (some f) =
    (ends_with (lower f.name) (codes ".zip") ≡ true) × (f.size ≤ max_zip_mb * 1024 * 1024)

abbrev pub IsReady : BatchPage → Type 0
IsReady p = IsArchive p.file × (1 ≤ p.top_k) × (p.top_k ≤ 10)

on_pick-IsReady :
    (picked : Option ArchiveFile) (p : BatchPage) → IsReady p → IsReady (on_pick picked p)
unfolding on_pick
on_pick-IsReady none p (a, lo, hi) = (tt, lo, hi)
on_pick-IsReady (some f) p (a, lo, hi) =
    elim (Bool-cases (ends_with (lower f.name) (codes ".zip"))) [
      | inl z ↦ elim (Bool-cases (ltb (max_zip_mb * 1024 * 1024) f.size)) [
        | inl big ↦ rw (on_pick, z, big) (a, lo, hi)
        | inr small ↦ rw (on_pick, z, small) ((z, ground arith), lo, hi)
      ]
      | inr z ↦ rw (on_pick, z) (a, lo, hi)
    ]

set_top_k-IsReady : (n : Option ℕ) (p : BatchPage) → IsReady p → IsReady (set_top_k n p)
unfolding set_top_k
set_top_k-IsReady n p (a, lo, hi) = (a, omega arith, omega arith)

run_end-IsReady :
    (number_text : ℕ → Text) (to_fixed : ℕ → ℕ → Text) (now : ℕ) (f : ArchiveFile)
    → (answer : BatchAnswer) (p : BatchPage) → IsReady p
    → IsReady (run_end number_text to_fixed now f answer p)
unfolding run_end run_failed
run_end-IsReady number_text to_fixed now f (threw m) p h = h
run_end-IsReady number_text to_fixed now f (refused status detail) p h = h
run_end-IsReady number_text to_fixed now f downloaded p h = h
run_end-IsReady number_text to_fixed now f (replied j) p h = h

-- The page as it opens.
abbrev pub opened : Store → BatchPage
opened toasts = record {
  file = none;
  top_k = 3;
  loading = false;
  error = none;
  result = none;
  toasts = toasts;
}

-- What happens on the page: a file or a number is chosen, which the page also takes while a batch is on
-- its way; a batch starts; or the answer to one comes, for the file that was sent.
pub data BatchEvent : Type 0 where
  picked : Option ArchiveFile → BatchEvent
  chosen : Option ℕ → BatchEvent
  began : BatchEvent
  ended : ℕ → ArchiveFile → BatchAnswer → BatchEvent

abbrev pub began_page : BatchPage → BatchPage
began_page p = elim (run_begin p) [ none ↦ p | some r ↦ r.0 ]

module _ (number_text : ℕ → Text) (to_fixed : ℕ → ℕ → Text) where
  unfoldable pub run_events : List BatchEvent → BatchPage → BatchPage
  run_events [] p = p
  run_events (picked f ∷ es) p = run_events es (on_pick f p)
  run_events (chosen n ∷ es) p = run_events es (set_top_k n p)
  run_events (began ∷ es) p = run_events es (began_page p)
  run_events (ended now f answer ∷ es) p =
      run_events es (run_end number_text to_fixed now f answer p)

begin-shape :
    (p p1 : BatchPage) (f : ArchiveFile)
    → run_begin p ≡ some (p1, f)
    → (p.file ≡ some f) × (p1 ≡ record p { loading = true; error = none })
unfolding run_begin
begin-shape p p1 f b = ground (arith, b)

began_page-IsReady : (p : BatchPage) → IsReady p → IsReady (began_page p)
began_page-IsReady p h = elim (Option-cases (run_begin p)) [
  | inl e ↦ rw (began_page, e) h
  | inr ((p1, f), e) ↦ rw (began_page, e, (begin-shape p p1 f e).1) h
]

run_events-IsReady :
    (number_text : ℕ → Text) (to_fixed : ℕ → ℕ → Text) (es : List BatchEvent) (p : BatchPage)
    → IsReady p
    → IsReady (run_events number_text to_fixed es p)
unfolding run_events
run_events-IsReady number_text to_fixed [] p h = h
run_events-IsReady number_text to_fixed (picked f ∷ es) p h =
    run_events-IsReady number_text to_fixed es (on_pick f p) (on_pick-IsReady f p h)
run_events-IsReady number_text to_fixed (chosen n ∷ es) p h =
    run_events-IsReady number_text to_fixed es (set_top_k n p) (set_top_k-IsReady n p h)
run_events-IsReady number_text to_fixed (began ∷ es) p h =
    run_events-IsReady number_text to_fixed es (began_page p) (began_page-IsReady p h)
run_events-IsReady number_text to_fixed (ended now f answer ∷ es) p h =
    run_events-IsReady number_text to_fixed es (run_end number_text to_fixed now f answer p)
      (run_end-IsReady number_text to_fixed now f answer p h)

-- Whatever has happened on the page since it was opened, in any order and with any answers, also
-- choices made while a batch is on its way: the file that a batch sends has a name that ends in
-- ".zip", in any case, and at most 200 MiB, and the number of results asked for is from 1 to 10.
pub sent-IsArchive :
    (number_text : ℕ → Text) (to_fixed : ℕ → ℕ → Text) (toasts : Store) (es : List BatchEvent)
    (p1 : BatchPage) (f : ArchiveFile)
    → run_begin (run_events number_text to_fixed es (opened toasts)) ≡ some (p1, f)
    → (ends_with (lower f.name) (codes ".zip") ≡ true)
      × (f.size ≤ 209715200)
      × (1 ≤ p1.top_k)
      × (p1.top_k ≤ 10)
sent-IsArchive number_text to_fixed toasts es p1 f b =
    let p = run_events number_text to_fixed es (opened toasts) in
    let (archive, lo, hi) =
      run_events-IsReady number_text to_fixed es (opened toasts) (tt, omega arith, omega arith) in
    let (file, shape) = begin-shape p p1 f b in
    let (zip, small) : IsArchive (some f) = subst IsArchive file archive in
    (zip, small, rw shape lo, rw shape hi)
