-- ===== src/MatchesPage/Changes.antt =====
-- What the handlers of web/app/matches/page.tsx change in the store.
use clawhum.Prelude.{
  ℕ, Bool, true, false, none, some, List, [], ◌∷◌, map, if◌then◌else◌, is_empty, ◌≡◌, refl, ◌∙◌, ap,
  arith, Option-cases, Bool-cases, inl, inr,
}
use clawhum.Prelude.Text.{Text, text_eq}
use clawhum.Model.{StoredMatch}
use clawhum.History.{load_matches, get_match, clear_matches, apply_patch, patch_name, patch_tags}
use clawhum.Tags.{normalise_tags}
use clawhum.Tags.Laws.{normalise_tags_idempotent}
use clawhum.Keys.Handlers.{split_parts}
use clawhum.History.Editing.{patched, get-update_match}
use clawhum.MatchesPage.{
  MatchesPage, refresh, tags_patch, commit_rename, commit_tags, remove_one, clear_log,
}

-- The page lists what the storage holds.
abbrev pub IsFresh : MatchesPage → Type 0
IsFresh p = p.items ≡ some (load_matches p.browser)

module _ (fits : List StoredMatch → Bool) where
  commit_rename-IsFresh : (p : MatchesPage) → IsFresh p → IsFresh (commit_rename fits p)
  unfolding commit_rename refresh
  commit_rename-IsFresh p f = elim (Option-cases p.renaming) [
    | inl e ↦ rw (commit_rename, e) f
    | inr (id, e) ↦ elim (Bool-cases (is_empty id)) [
      | inl z ↦ rw (commit_rename, e, z) f
      | inr z ↦ rw (commit_rename, e, z) refl
    ]
  ]

  commit_tags-IsFresh : (p : MatchesPage) → IsFresh p → IsFresh (commit_tags fits p)
  unfolding commit_tags refresh
  commit_tags-IsFresh p f = elim (Option-cases p.tagging) [
    | inl e ↦ rw (commit_tags, e) f
    | inr (id, e) ↦ elim (Bool-cases (is_empty id)) [
      | inl z ↦ rw (commit_tags, e, z) f
      | inr z ↦ rw (commit_tags, e, z) refl
    ]
  ]

  remove_one-IsFresh :
      (c : Bool) (id : Text) (p : MatchesPage) → IsFresh p → IsFresh (remove_one fits c id p)
  unfolding remove_one refresh
  remove_one-IsFresh true id p f = refl
  remove_one-IsFresh false id p f = f

clear_log-IsFresh : (c : Bool) (p : MatchesPage) → IsFresh p → IsFresh (clear_log c p)
unfolding clear_log clear_matches load_matches
clear_log-IsFresh true p f = ground arith
clear_log-IsFresh false p f = f

-- A page that lists what the storage holds still does after each change that it makes: a rename, new
-- tags, a removal and a clearing, also where the storage refuses the change or nothing is confirmed;
-- and it does after each refresh.
pub operations-IsFresh :
    (fits : List StoredMatch → Bool) (p : MatchesPage) (confirmed : Bool) (id : Text)
    → IsFresh p
    → IsFresh (refresh p)
      × IsFresh (commit_rename fits p)
      × IsFresh (commit_tags fits p)
      × IsFresh (remove_one fits confirmed id p)
      × IsFresh (clear_log confirmed p)
unfolding refresh
operations-IsFresh fits p confirmed id f = (
  refl,
  commit_rename-IsFresh fits p f,
  commit_tags-IsFresh fits p f,
  remove_one-IsFresh fits confirmed id p f,
  clear_log-IsFresh confirmed p f,
)

-- The tags are normalised by the page and again by `updateMatch`, which changes nothing any more.
apply-tags_patch :
    (draft : Text) (m : StoredMatch)
    → apply_patch (tags_patch draft) m
      ≡ record m { tags = some (normalise_tags (map some (split_parts [] draft))) }
unfolding patch_name patch_tags
apply-tags_patch draft m =
    ap (λ ts. record m { tags = some ts })
      (normalise_tags_idempotent (map some (split_parts [] draft)))

-- Where a stored match is being tagged and the storage takes the change, `commitTags` gives that match
-- the normalised tags of the draft and nothing else, keeps every other match, closes the draft and
-- lists the store.
pub commit_tags-get :
    (fits : List StoredMatch → Bool) (p : MatchesPage) (c : ℕ) (id : Text) (m : StoredMatch)
    → p.tagging ≡ some (c ∷ id)
    → p.browser.window ≡ true
    → get_match p.browser (c ∷ id) ≡ some m
    → fits (patched (c ∷ id) (tags_patch p.tag_draft) (load_matches p.browser)) ≡ true
    → let p' = commit_tags fits p in
      ((key : Text)
        → get_match p'.browser key ≡ (
            if text_eq (c ∷ id) key
            then some
                (record m { tags = some (normalise_tags (map some (split_parts [] p.tag_draft))) })
            else get_match p.browser key))
      × (p'.tagging ≡ none)
      × (p'.items ≡ some (load_matches p'.browser))
unfolding commit_tags refresh
commit_tags-get fits p c id m t w g k =
    let (_, got, _) = get-update_match fits p.browser (c ∷ id) (tags_patch p.tag_draft) m w g k in
    rw (commit_tags, t)
      (
        (λ key.
            got key
            ∙ ap (λ n. if text_eq (c ∷ id) key then some n else get_match p.browser key)
                (apply-tags_patch p.tag_draft m)),
        refl,
        refl,
      )
