-- ===== src/Shares/Changes.antt =====
-- What saving a note and revoking a share leave on the page of web/app/shares/page.tsx.
use mathlib.Core.Option
use clawhum.Prelude.{
  ℕ, ◌-◌, Bool, true, false, not, ◌&&◌, Option, none, some, List, [], ◌∷◌, map, filter, find, head?,
  if◌then◌else◌, length, length-map, ◌≡◌, refl, arith,
}
use clawhum.Prelude.Text.{Text, text_eq, eq_iff}
use clawhum.Toast.{Store, ToastVariant, Toast, success, error, toast, show_toast, emit, new_toast}
use clawhum.Shares.{
  ShareItem, ShareList, SharesPage, ShareAnswer, threw, refused, replied, with_note, fetch_begin,
  save_note_end, revoke_end, map_shares, drop_share,
}

abbrev pub has_share_id : Text → ShareItem → Bool
has_share_id key s = text_eq s.id key

abbrev pub listed : Option ShareList → List ShareItem
listed none = []
listed (some l) = l.shares

abbrev pub find_share : Text → SharesPage → Option ShareItem
find_share key p = find (has_share_id key) (listed p.data_)

abbrev pub total_in : Option ShareList → Option ℕ
total_in = Option.map (λ (l : ShareList). l.total)

abbrev pub newest_variant : Store → Option ToastVariant
newest_variant s = Option.map (λ (t : Toast). t.variant) (head? s.toasts)

abbrev pub is_replied {ℓ} : {A : Type ℓ} → ShareAnswer A → Bool
is_replied (threw m) = false
is_replied (refused status body) = false
is_replied (replied a) = true

-- What the answer to a new note makes of the share `s`.
abbrev pub noted : Text → ShareAnswer ShareItem → ShareItem → ShareItem
noted id (threw m) s = s
noted id (refused status body) s = s
noted id (replied updated) s = if text_eq s.id id then record s { note = updated.note } else s

find-with_note :
    (id key : Text) (new : Option Text) (ss : List ShareItem)
    → find (has_share_id key) (map (with_note id new) ss)
      ≡ Option.map (with_note id new) (find (has_share_id key) ss)
find-with_note id key new [] = refl
find-with_note id key new (s ∷ ss) = ground (arith, find-with_note id key new ss)

find-filter :
    (id key : Text) (ss : List ShareItem)
    → find (has_share_id key) (filter (λ s. not (has_share_id id s)) ss)
      ≡ (if text_eq id key then none else find (has_share_id key) ss)
find-filter id key [] = ground arith
find-filter id key (s ∷ ss) =
    ground (arith, find-filter id key ss, eq_iff id key, eq_iff s.id key, eq_iff s.id id)

map-id {ℓ} : {A : Type ℓ} (o : Option A) → o ≡ Option.map (λ a. a) o
map-id none = refl
map-id (some a) = refl

noted_list :
    (id : Text) (new : Option Text) (o : Option ShareList)
    → let o' = map_shares (map (with_note id new)) o in
      ((key : Text)
        → find (has_share_id key) (listed o')
          ≡ Option.map (with_note id new) (find (has_share_id key) (listed o)))
      × (total_in o' ≡ total_in o)
      × (length (listed o') ≡ length (listed o))
noted_list id new none = ((λ key. refl), refl, refl)
noted_list id new (some l) =
    ((λ key. find-with_note id key new l.shares), refl, length-map l.shares (with_note id new))

dropped_list :
    (id : Text) (o : Option ShareList)
    → let o' = drop_share id o in
      ((key : Text)
        → find (has_share_id key) (listed o')
          ≡ (if text_eq id key then none else find (has_share_id key) (listed o)))
      × (total_in o' ≡ Option.map (λ n. n - 1) (total_in o))
dropped_list id none = ((λ key. ground arith), refl)
dropped_list id (some l) = ((λ key. find-filter id key l.shares), refl)

-- However the request for a new note ends, and whatever has happened on the page since it was sent:
-- where the server took it, the shares with that id have the note that it answered and every other
-- share and field is as it was; otherwise no share has changed. The number of shares stays, the page
-- is not saving any more, the editor is closed where the note was taken and open as it was otherwise,
-- and the newest toast says which.
pub save_note_end-outcome :
    (now : ℕ) (id : Text) (answer : ShareAnswer ShareItem) (p : SharesPage)
    → let p' = save_note_end now id answer p in
      ((key : Text) → find_share key p' ≡ Option.map (noted id answer) (find_share key p))
      × (total_in p'.data_ ≡ total_in p.data_)
      × (length (listed p'.data_) ≡ length (listed p.data_))
      × (p'.saving_id ≡ none)
      × (p'.editing_id ≡ (if is_replied answer then none else p.editing_id))
      × (newest_variant p'.toasts ≡ some (if is_replied answer then success else error))
unfolding save_note_end toast show_toast emit new_toast
save_note_end-outcome now id (threw m) p =
    ((λ key. map-id (find_share key p)), refl, refl, refl, refl, refl)
save_note_end-outcome now id (refused status body) p =
    ((λ key. map-id (find_share key p)), refl, refl, refl, refl, refl)
save_note_end-outcome now id (replied updated) p =
    let (found, total, count) = noted_list id updated.note p.data_ in
    (found, total, count, refl, refl, refl)

-- However the request to revoke a share ends, and whatever has happened on the page since it was
-- sent: where the server revoked it, no share has its id any more, every other id finds what it found,
-- the total is one less but not below 0, and a fetch of the list is on its way without an error on the
-- page; otherwise the list and its state are as they were. The page is not revoking any more, and the
-- newest toast says which.
pub revoke_end-outcome :
    (now : ℕ) (id : Text) (answer : ShareAnswer (Unit {0})) (p : SharesPage)
    → let p' = revoke_end now id answer p in
      ((key : Text)
        → find_share key p'
          ≡ (if is_replied answer && text_eq id key then none else find_share key p))
      × (total_in p'.data_ ≡ (
          if is_replied answer
          then Option.map (λ n. n - 1) (total_in p.data_)
          else total_in p.data_))
      × (p'.loading ≡ (if is_replied answer then true else p.loading))
      × (p'.err ≡ (if is_replied answer then none else p.err))
      × (p'.busy_id ≡ none)
      × (newest_variant p'.toasts ≡ some (if is_replied answer then success else error))
unfolding revoke_end fetch_begin toast show_toast emit new_toast
revoke_end-outcome now id (threw m) p = ((λ key. refl), refl, refl, refl, refl, refl)
revoke_end-outcome now id (refused status body) p = ((λ key. refl), refl, refl, refl, refl, refl)
revoke_end-outcome now id (replied _) p =
    let (found, total) = dropped_list id p.data_ in (found, total, refl, refl, refl, refl)
