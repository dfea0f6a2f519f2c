-- ===== src/Catalog/TagCounts.antt =====
-- What `allTags` of web/lib/history.ts counts, and how it orders the tags.
use clawhum.Prelude.{
  ℕ, ◌+◌, Bool, true, false, List, [], ◌∷◌, ◌++◌, if◌then◌else◌, or_else, max, ◌≡◌, refl, arith,
}
use clawhum.Prelude.Text.{Text, text_eq, eq_iff}
use clawhum.Prelude.Sort.{IsSorted, sort_by-IsSorted, sum_by, max_by, sum_by-sort_by}
use clawhum.Model.{StoredMatch}
use clawhum.Catalog.{TagCount, count_tag, count_tags, tag_counts, tag_order, all_tags}

-- The tags of all matches, with repetitions.
abbrev pub used_tags : List StoredMatch → List Text
used_tags [] = []
used_tags (m ∷ ms) = or_else m.tags [] ++ used_tags ms

module _ (tag : Text) where
  abbrev pub count_at : TagCount → ℕ
  count_at c = if text_eq c.tag tag then c.count else 0

  abbrev pub entry_of : TagCount → ℕ
  entry_of c = if text_eq c.tag tag then 1 else 0

  abbrev pub used_as : Text → ℕ
  used_as t = if text_eq t tag then 1 else 0

  pub record Tally (cs : List TagCount) (count entries : ℕ) : Type 0 where
    pub count_total : sum_by count_at cs ≡ count
    pub entry_total : sum_by entry_of cs ≡ entries

  module _ (t : Text) where
    count-count_tag :
        (cs : List TagCount) → sum_by count_at (count_tag cs t) ≡ used_as t + sum_by count_at cs
    unfolding count_tag
    count-count_tag [] = ground arith
    count-count_tag (c ∷ cs) =
        ground (arith, count-count_tag cs, eq_iff c.tag t, eq_iff c.tag tag, eq_iff t tag)

    entry-count_tag :
        (cs : List TagCount)
        → sum_by entry_of (count_tag cs t) ≡ max (used_as t) (sum_by entry_of cs)
    unfolding count_tag
    entry-count_tag [] = ground arith
    entry-count_tag (c ∷ cs) =
        ground (arith, entry-count_tag cs, eq_iff c.tag t, eq_iff c.tag tag, eq_iff t tag)

  Tally-count_tags :
      (cs : List TagCount) (ts : List Text)
      → Tally
          (count_tags cs ts)
          (sum_by used_as ts + sum_by count_at cs)
          (max (max_by used_as ts) (sum_by entry_of cs))
  unfolding count_tags
  Tally-count_tags cs [] = omega arith
  Tally-count_tags cs (t ∷ ts) =
      omega
        (arith, Tally-count_tags (count_tag cs t) ts, count-count_tag t cs, entry-count_tag t cs)

  count_tags-append :
      (cs : List TagCount) (ts us : List Text)
      → count_tags cs (ts ++ us) ≡ count_tags (count_tags cs ts) us
  unfolding count_tags
  count_tags-append cs [] us = refl
  count_tags-append cs (t ∷ ts) us = count_tags-append (count_tag cs t) ts us

  tag_counts-used_tags :
      (cs : List TagCount) (ms : List StoredMatch) → tag_counts cs ms ≡ count_tags cs (used_tags ms)
  unfolding tag_counts count_tags
  tag_counts-used_tags cs [] = refl
  tag_counts-used_tags cs (m ∷ ms) =
      rw (count_tags-append, tag_counts-used_tags (count_tags cs (or_else m.tags [])) ms)

  Tally-all_tags :
      (collates : Text → Text → Bool) (ms : List StoredMatch)
      → Tally (all_tags collates ms) (sum_by used_as (used_tags ms)) (max_by used_as (used_tags ms))
  unfolding all_tags
  Tally-all_tags collates ms = rw (tag_counts-used_tags [] ms) (
      omega (
        arith,
        Tally-count_tags [] (used_tags ms),
        sum_by-sort_by {0} (tag_order collates) count_at (count_tags [] (used_tags ms)),
        sum_by-sort_by {0} (tag_order collates) entry_of (count_tags [] (used_tags ms)),
      ))

module _ (collates : Text → Text → Bool)
    (total : (s t : Text) → collates s t ≡ false → collates t s ≡ true)
    (trans : (s t u : Text) → collates s t ≡ true → collates t u ≡ true → collates s u ≡ true) where
  tag_order-total :
      (x y : TagCount) → tag_order collates x y ≡ false → tag_order collates y x ≡ true
  tag_order-total x y h = ground (arith, total x.tag y.tag)

  tag_order_trans :
      (x y z : TagCount)
      → tag_order collates x y ≡ true
      → tag_order collates y z ≡ true
      → tag_order collates x z ≡ true
  tag_order_trans x y z h k = ground (arith, trans x.tag y.tag z.tag)

  -- For a locale order that is total and transitive, `allTags` lists each used tag once and no
  -- other, with the number of its uses over all matches; the tags stand by falling count, and those
  -- of one count in the locale's order.
  pub all_tags-IsSorted :
      (ms : List StoredMatch)
      → IsSorted (tag_order collates) (all_tags collates ms)
        × ((tag : Text)
            → Tally tag
                (all_tags collates ms)
                (sum_by (used_as tag) (used_tags ms))
                (max_by (used_as tag) (used_tags ms)))
  unfolding all_tags
  all_tags-IsSorted ms = (
    sort_by-IsSorted (tag_order collates) tag_order-total tag_order_trans _,
    λ tag. Tally-all_tags tag collates ms,
  )
