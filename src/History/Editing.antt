-- ===== src/History/Editing.antt =====
-- What `deleteMatch` and `updateMatch` of web/lib/history.ts answer and leave in storage.
use clawhum.Prelude.{
  Bool, true, false, not, none, some, List, [], ◌∷◌, if◌then◌else◌, length, find, filter, any, ◌≡◌,
  refl, arith, Bool-cases, Option-cases, inl, inr, ◌==◌, length-filter-le,
}
use clawhum.Prelude.Text.{Text, text_eq, eq_iff}
use clawhum.Model.{StoredMatch}
use clawhum.History.{
  holds, Browser, load_matches, has_id, Patch, patch_name, patch_tags, apply_patch, patch_first,
  get_match, delete_match, update_match,
}

-- The matches of other ids.
abbrev pub others : Text → List StoredMatch → List StoredMatch
others id ms = filter (λ m. not (has_id id m)) ms

length-others :
    (id : Text) (ms : List StoredMatch)
    → (length (others id ms) == length ms) ≡ not (any (has_id id) ms)
length-others id [] = refl
length-others id (m ∷ ms) =
    ground (arith, length-others id ms, length-filter-le (λ n. not (has_id id n)) ms)

others_absent : (id : Text) (ms : List StoredMatch) → any (has_id id) ms ≡ false → others id ms ≡ ms
others_absent id [] h = refl
others_absent id (m ∷ ms) h = ground (arith, others_absent id ms)

module _ (fits : List StoredMatch → Bool) (b : Browser) (id : Text) (window : b.window ≡ true) where
  -- With a window and a storage that accepts the shorter list, `deleteMatch` answers whether a match
  -- of that id was stored, and exactly the matches of other ids remain, in their order.
  pub load-delete_match :
      fits (others id (load_matches b)) ≡ true
      → ((delete_match fits b id).1 ≡ any (has_id id) (load_matches b))
        × (load_matches (delete_match fits b id).0 ≡ others id (load_matches b))
  unfolding delete_match load_matches
  load-delete_match h =
      ground (arith, length-others id (load_matches b), others_absent id (load_matches b))

apply_patch-id : (p : Patch) (m : StoredMatch) → (apply_patch p m).query_id ≡ m.query_id
unfolding patch_name patch_tags
apply_patch-id p m = elim (Option-cases p.name) [
  | inl e ↦ elim (Option-cases p.tags) [ inl f ↦ rw (e, f) | inr (_, f) ↦ rw (e, f) ]
  | inr (_, e) ↦ elim (Option-cases p.tags) [ inl f ↦ rw (e, f) | inr (_, f) ↦ rw (e, f) ]
]

module _ (id : Text) (p : Patch) where
  patch_first-none :
      (ms : List StoredMatch) → find (has_id id) ms ≡ none → patch_first id p ms ≡ none
  unfolding patch_first
  patch_first-none [] h = refl
  patch_first-none (m ∷ ms) h = ground (arith, patch_first-none ms)

  -- The list with its first match of that id patched.
  abbrev pub patched : List StoredMatch → List StoredMatch
  patched [] = []
  patched (m ∷ ms) = let rest = patched ms in if has_id id m then apply_patch p m ∷ ms else m ∷ rest

  patch_first-some :
      (ms : List StoredMatch) (m : StoredMatch)
      → find (has_id id) ms ≡ some m
      → patch_first id p ms ≡ some (patched ms, apply_patch p m)
  unfolding patch_first
  patch_first-some [] m h = cc
  patch_first-some (n ∷ ms) m h = elim (Bool-cases (has_id id n)) [
    | inl e ↦ let same : n ≡ m = ground arith in rw (e, same)
    | inr e ↦ rw (e, patch_first-some ms m (rw e at h))
  ]

  find-patched :
      (key : Text) (ms : List StoredMatch) (m : StoredMatch)
      → find (has_id id) ms ≡ some m
      → find (has_id key) (patched ms)
        ≡ (if text_eq id key then some (apply_patch p m) else find (has_id key) ms)
  find-patched key [] m h = cc
  find-patched key (n ∷ ms) m h = elim (Bool-cases (has_id id n)) [
    | inl e ↦
        let same : n ≡ m = ground arith in
        ground (
          arith,
          same,
          apply_patch-id p n,
          eq_iff n.query_id id,
          eq_iff id key,
          eq_iff (apply_patch p n).query_id key,
          eq_iff n.query_id key,
        )
    | inr e ↦
        ground
          (arith, find-patched key ms m, eq_iff id key, eq_iff n.query_id key, eq_iff n.query_id id)
  ]

  length-patched : (ms : List StoredMatch) → length (patched ms) ≡ length ms
  length-patched [] = refl
  length-patched (m ∷ ms) = ground (arith, length-patched ms)

module _ (fits : List StoredMatch → Bool) (b : Browser) (id : Text) (p : Patch) where
  -- `updateMatch` of an id that is not stored answers null and changes nothing.
  pub update_match_absent : get_match b id ≡ none → update_match fits b id p ≡ (b, none)
  unfolding update_match get_match
  update_match_absent h = ground (arith, patch_first-none id p (load_matches b))

  update_match_stored :
      (m : StoredMatch)
      → b.window ≡ true
      → get_match b id ≡ some m
      → fits (patched id p (load_matches b)) ≡ true
      → update_match fits b id p
        ≡ (record b { slot = holds (patched id p (load_matches b)) }, some (apply_patch p m))
  unfolding update_match get_match
  update_match_stored m w h k = ground (arith, patch_first-some id p (load_matches b) m h)

  -- With a window and a storage that accepts the changed list, `updateMatch` of a stored id answers
  -- the patched record; that record is found under its id afterwards, every other id finds what it
  -- found before, and no match is gained or lost.
  pub get-update_match :
      (m : StoredMatch)
      → b.window ≡ true
      → get_match b id ≡ some m
      → fits (patched id p (load_matches b)) ≡ true
      → ((update_match fits b id p).1 ≡ some (apply_patch p m))
        × ((key : Text)
            → get_match (update_match fits b id p).0 key
              ≡ (if text_eq id key then some (apply_patch p m) else get_match b key))
        × (length (load_matches (update_match fits b id p).0) ≡ length (load_matches b))
  unfolding get_match
  get-update_match m w h k = rw (update_match_stored m w h k) (
    refl,
    (λ key. rw (stored_list) (find-patched id p key (load_matches b) m h)),
    rw stored_list (length-patched id p (load_matches b)),
  )
    where
      stored_list :
          load_matches (record b { slot = holds (patched id p (load_matches b)) })
          ≡ patched id p (load_matches b)
      stored_list = unfold load_matches in rw w
