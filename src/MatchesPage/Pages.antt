-- ===== src/MatchesPage/Pages.antt =====
-- What web/app/matches/page.tsx shows.
use mathlib.Core.List.{Perm}
use clawhum.Prelude.{
  ℕ, zero, suc, ◌+◌, ◌-◌, ◌*◌, ◌≤◌, min, some, List, [], ◌∷◌, ◌++◌, length, take, drop, IsSelection,
  ◌≡◌, refl, sym, ◌∙◌, ap, arith, length-take, take_of_length-le,
}
use clawhum.Prelude.Sort.{IsSorted}
use clawhum.Model.{StoredMatch}
use clawhum.Query.{filter_matches, in_order}
use clawhum.Query.Laws.{Selected, filter_matches-IsSelection, sort_matches-IsSorted}
use clawhum.MatchesPage.{
  MatchesPage, page_size, page_filter, filtered, total_pages, page_slice, visible,
}

-- The first `n` pages one behind the other.
abbrev pub first_pages : ℕ → List StoredMatch → List StoredMatch
first_pages zero ms = []
first_pages (suc n) ms = first_pages n ms ++ page_slice (suc n) ms

take-add :
    (m n k : ℕ) (ms : List StoredMatch) → m + n ≡ k → take k ms ≡ take m ms ++ take n (drop m ms)
take-add zero n k ms e = ap (λ j. take j ms) (omega (arith, e))
take-add (suc m) n zero ms e = absurd (omega (arith, e))
take-add (suc m) zero (suc k) [] e = refl
take-add (suc m) (suc n) (suc k) [] e = refl
take-add (suc m) n (suc k) (x ∷ ms) e = ap (λ l. x ∷ l) (take-add m n k ms (omega (arith, e)))

first_pages-take : (n : ℕ) (ms : List StoredMatch) → first_pages n ms ≡ take (n * page_size) ms
unfolding page_slice
first_pages-take zero ms = refl
first_pages-take (suc n) ms =
    ap (λ l. l ++ page_slice (suc n) ms) (first_pages-take n ms)
    ∙ ap (λ j. take (n * page_size) ms ++ take page_size (drop (j * page_size) ms)) (omega arith)
    ∙ sym (take-add (n * page_size) page_size (suc n * page_size) ms (omega arith))

-- The pages, one behind the other, are the whole list that the filters leave; a page holds at most 25
-- matches, and the page shown is one of them, even when the number asked for is beyond the last.
pub first_pages-filtered :
    (now : ℕ) (p : MatchesPage)
    → 1 ≤ p.page
    → let ms = filtered now p in
      let n = total_pages (length ms) in
      (first_pages n ms ≡ ms)
      × (length (visible now p) ≤ page_size)
      × ((k : ℕ) × (1 ≤ k) × (k ≤ n) × (visible now p ≡ page_slice k ms))
unfolding visible total_pages page_slice
first_pages-filtered now p h =
    let ms = filtered now p in
    let n = total_pages (length ms) in
    (
      first_pages-take n ms ∙ take_of_length-le (n * page_size) ms (omega arith),
      omega (arith, length-take page_size (drop ((min p.page n - 1) * page_size) ms)),
      (min p.page n, omega arith, omega arith, refl),
    )

-- What the pages hold, of the stored matches that the page has read: a list with exactly the
-- matches that the filters select, each as often as it is stored, in the chosen order.
pub filtered-Perm :
    (now : ℕ) (p : MatchesPage) (ms : List StoredMatch)
    → p.items ≡ some ms
    → (selected : List StoredMatch) × IsSelection (Selected (page_filter now p)) ms selected
      × Perm (filtered now p) selected
      × IsSorted (in_order p.sort) (filtered now p)
unfolding filtered
filtered-Perm now p ms e =
    let sel = filter_matches ms (page_filter now p) in
    let (perm, sorted, _) = sort_matches-IsSorted sel p.sort in
    (
      sel,
      filter_matches-IsSelection ms (page_filter now p),
      rw (filtered, e) perm,
      rw (filtered, e) sorted,
    )
