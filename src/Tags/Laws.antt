-- ===== src/Tags/Laws.antt =====
-- The tags that `normaliseTags` returns: normal, distinct, and stable under a second call.
use mathlib.Core.List.{append_assoc, append-nil}
use clawhum.Prelude.{
  ℕ, ◌≤◌, Bool, false, not, ◌&&◌, ◌||◌, Option, none, some, List, [], ◌∷◌, ◌++◌, map, is_empty,
  length, All, All-append, All-take, length-take, ◌≡◌, refl, sym, ap, arith, Bool-cases, inl, inr,
  take_of_length-le,
}
use clawhum.Prelude.Text.{
  Text, text_eq, eq_iff, is_space, trim_start, trim_end, trim, lower_unit, lower,
}
use clawhum.Prelude.TextSet.{has, Distinct, Distinct-snoc, Distinct-middle, has-append}
use clawhum.Tags.{dash_spaces, normal_tag, normalise_from, normalise_tags}

-- A unit that `trim`, `toLowerCase` and the replacement all leave alone.
abbrev pub IsSettled : ℕ → Type 0
IsSettled c = (is_space c ≡ false) × (lower_unit c ≡ c)

lower_unit_idempotent : (c : ℕ) → lower_unit (lower_unit c) ≡ lower_unit c
unfolding lower_unit
lower_unit_idempotent c = ground arith

dash-IsSettled : IsSettled b'-'
unfolding lower_unit is_space
dash-IsSettled = (refl, refl)

lower-fixed : (s : Text) → All (λ c. lower_unit c ≡ c) (lower s)
unfolding lower
lower-fixed [] = tt
lower-fixed (c ∷ s) = (lower_unit_idempotent c, lower-fixed s)

dash_spaces-IsSettled :
    (inside : Bool) (s : Text)
    → All (λ c. lower_unit c ≡ c) s
    → All IsSettled (dash_spaces inside s)
unfolding dash_spaces
dash_spaces-IsSettled inside [] h = tt
dash_spaces-IsSettled inside (c ∷ s) (e, h) = elim (Bool-cases (is_space c)) [
  | inl sp ↦
      let rest = dash_spaces-IsSettled (is_space c) s h in
      elim (Bool-cases inside) [
        | inl i ↦ rw (sp, i) (rw sp at rest)
        | inr i ↦ rw (sp, i) (dash-IsSettled, (rw sp at rest))
      ]
  | inr sp ↦ let rest = dash_spaces-IsSettled (is_space c) s h in rw sp ((sp, e), (rw sp at rest))
]

-- The text of a tag: settled units, 32 at most.
pub normal_tag-IsSettled : (s : Text) → All IsSettled (normal_tag s) × (length (normal_tag s) ≤ 32)
unfolding normal_tag
normal_tag-IsSettled s = (
  All-take IsSettled 32 _ (dash_spaces-IsSettled false _ (lower-fixed (trim s))),
  omega (arith, length-take {0} 32 (dash_spaces false (lower (trim s)))),
)

trim_start-settled : (s : Text) → All IsSettled s → trim_start s ≡ s
unfolding trim_start
trim_start-settled [] h = refl
trim_start-settled (c ∷ s) ((e, _), h) = rw e

trim_end-settled : (s : Text) → All IsSettled s → trim_end s ≡ s
unfolding trim_end
trim_end-settled [] h = refl
trim_end-settled (c ∷ s) ((e, _), h) = rw (e, trim_end-settled s h)

lower-settled : (s : Text) → All IsSettled s → lower s ≡ s
unfolding lower
lower-settled [] h = refl
lower-settled (c ∷ s) ((_, e), h) = rw (e, lower-settled s h)

dash_spaces-settled : (inside : Bool) (s : Text) → All IsSettled s → dash_spaces inside s ≡ s
unfolding dash_spaces
dash_spaces-settled inside [] h = refl
dash_spaces-settled inside (c ∷ s) ((e, _), h) = rw (e, dash_spaces-settled false s h)

normal_tag-settled : (s : Text) → All IsSettled s → length s ≤ 32 → normal_tag s ≡ s
unfolding normal_tag trim
normal_tag-settled s h k = rw (
  trim_start-settled s h,
  trim_end-settled s h,
  lower-settled s h,
  dash_spaces-settled false s h,
  take_of_length-le 32 s k,
)

-- What a returned tag is.
abbrev pub IsTag : Text → Type 0
IsTag v = (is_empty v ≡ false) × (normal_tag v ≡ v) × (length v ≤ 32)

normal_tag-IsTag : (s : Text) → is_empty (normal_tag s) ≡ false → IsTag (normal_tag s)
normal_tag-IsTag s h =
    let (settled, short) = normal_tag-IsSettled s in (h, normal_tag-settled _ settled short, short)

-- `seen` and `out` hold the same tags throughout the loop.
normalise_from-IsTag :
    (out : List Text) (tags : List (Option Text))
    → All IsTag out × Distinct out
    → All IsTag (normalise_from out out tags) × Distinct (normalise_from out out tags)
unfolding normalise_from
normalise_from-IsTag out [] h = h
normalise_from-IsTag out (none ∷ tags) h = normalise_from-IsTag out tags h
normalise_from-IsTag out (some raw ∷ tags) h =
    elim (Bool-cases (is_empty raw || is_empty (normal_tag raw) || has out (normal_tag raw))) [
      | inl skip ↦ rw skip (normalise_from-IsTag out tags h)
      | inr fresh ↦ rw fresh (
          normalise_from-IsTag (out ++ normal_tag raw ∷ []) tags (
            All-append IsTag out _ h.0 (normal_tag-IsTag raw (ground arith), tt),
            Distinct-snoc out (normal_tag raw) (ground arith) h.1,
          ))
    ]

-- Normal tags that are distinct go through unchanged.
normalise_from-tags :
    (out tags : List Text)
    → All IsTag tags
    → Distinct (out ++ tags)
    → normalise_from out out (map some tags) ≡ out ++ tags
unfolding normalise_from
normalise_from-tags out [] h d = sym (append-nil out)
normalise_from-tags out (t ∷ tags) ((full, same, _), h) d =
    let keep : (is_empty t || is_empty (normal_tag t) || has out (normal_tag t)) ≡ false =
      rw same (ground (arith, Distinct-middle out t tags d)) in
    rw (
      normalise_from,
      keep,
      same,
      normalise_from-tags (out ++ t ∷ []) tags h (rw append_assoc d),
      append_assoc,
    )

-- Does the list hold a tag that is stored as `v`?
abbrev pub names_tag : Text → List (Option Text) → Bool
names_tag v [] = false
names_tag v (none ∷ tags) = names_tag v tags
names_tag v (some raw ∷ tags) =
    (not (is_empty raw) && not (is_empty (normal_tag raw)) && text_eq (normal_tag raw) v)
    || names_tag v tags

has-normalise_from :
    (v : Text) (out : List Text) (tags : List (Option Text))
    → has (normalise_from out out tags) v ≡ (has out v || names_tag v tags)
unfolding normalise_from
has-normalise_from v out [] = ground arith
has-normalise_from v out (none ∷ tags) = has-normalise_from v out tags
has-normalise_from v out (some raw ∷ tags) =
    elim (Bool-cases (is_empty raw || is_empty (normal_tag raw) || has out (normal_tag raw))) [
      | inl skip ↦
          rw (skip, has-normalise_from v out tags)
            (elim (Bool-cases (text_eq (normal_tag raw) v)) [
              | inl e ↦
                  let same = (eq_iff (normal_tag raw) v).0 e in ground (arith, ap (has out) same)
              | inr e ↦ rw e (ground arith)
            ])
      | inr fresh ↦
          rw (fresh, has-normalise_from v (out ++ normal_tag raw ∷ []) tags, has-append)
            (ground arith)
    ]

-- Every tag that `normaliseTags` returns is nonempty, at most 32 units long and unchanged by a
-- second normalisation, and no tag is returned twice.
pub normalise_tags-IsTag :
    (tags : List (Option Text)) → All IsTag (normalise_tags tags) × Distinct (normalise_tags tags)
unfolding normalise_tags
normalise_tags-IsTag tags = normalise_from-IsTag [] tags (tt, tt)

-- A tag is returned exactly when a nonempty entry of the input normalises to it.
pub has-normalise_tags :
    (v : Text) (tags : List (Option Text)) → has (normalise_tags tags) v ≡ names_tag v tags
unfolding normalise_tags
has-normalise_tags v tags = has-normalise_from v [] tags

-- Normalising a list of tags a second time changes nothing.
pub normalise_tags_idempotent :
    (tags : List (Option Text))
    → normalise_tags (map some (normalise_tags tags)) ≡ normalise_tags tags
normalise_tags_idempotent tags =
    let (normal, distinct) = normalise_tags-IsTag tags in
    fixed (normalise_tags tags) normal distinct
  where
    fixed : (ts : List Text) → All IsTag ts → Distinct ts → normalise_tags (map some ts) ≡ ts
    fixed ts h d = unfold normalise_tags in normalise_from-tags [] ts h d
