-- ===== src/Shares.antt =====
-- web/app/shares/page.tsx: the list of shared matches.
-- `now` is the clock's reading in milliseconds, and `number_text` is `String` of a number. Each
-- handler is split at its request.
pub mod Expiry
pub mod Changes
use clawhum.Prelude.{
  ℕ, ◌+◌, ◌-◌, ◌*◌, ◌/◌, max, Bool, true, false, not, ◌&&◌, ◌||◌, Option, none, some, List, [], ◌∷◌,
  ◌++◌, map, if◌then◌else◌, ltb, leb, ◌==◌, is_empty, take, filter, or_else,
}
use clawhum.Prelude.Text.{Text, codes, trim, lower, includes, join, text_eq}
use clawhum.Toast.{Store, ToastInput, toast, success, error}

pub record ShareItem : Type 0 where
  pub id : Text
  pub created_at : ℕ
  pub query_id : Text
  pub elapsed_ms : ℕ
  pub count : ℕ
  pub filename : Option Text
  pub duration_sec : Option ℕ
  pub note : Option Text
  pub top_title : Option Text
  pub top_artist : Option Text
  pub top_score : Option ℕ
  pub url_path : Text
  pub expires_at : ℕ
  pub expired : Bool

pub record ShareList : Type 0 where
  pub shares : List ShareItem
  pub total : ℕ

pub data Tone : Type 0 where
  dim muted warn bad : Tone

pub record ExpiryLabel : Type 0 where
  pub label : Text
  pub tone : Tone

unfoldable pub fmt_expiry : (ℕ → Text) → ℕ → ℕ → Bool → ExpiryLabel
fmt_expiry number_text now expires_at expired =
    let ms = expires_at * 1000 - now in
    let days = ms / 86400000 in
    let hours = ms / 3600000 in
    if expires_at == 0
    then record { label = codes "no expiry"; tone = dim }
    else if expired
    then record { label = codes "expired"; tone = bad }
    else if leb (expires_at * 1000) now
    then record { label = codes "expired"; tone = bad }
    else if leb 2 days
    then record {
      label = codes "expires in " ++ (number_text days ++ codes "d");
      tone = if leb days 3 then warn else muted;
    }
    else if leb 1 hours
    then record { label = codes "expires in " ++ (number_text hours ++ codes "h"); tone = warn }
    else record {
      label = codes "expires in " ++ (number_text (max 1 (ms / 60000)) ++ codes "m");
      tone = warn;
    }

pub record SharesPage : Type 0 where
  pub data_ : Option ShareList
  pub loading : Bool
  pub err : Option Text
  pub q : Text
  pub busy_id : Option Text
  pub editing_id : Option Text
  pub note_draft : Text
  pub saving_id : Option Text
  pub toasts : Store

-- How a request ends: it throws, it has a status that is not ok and a text, or the body is read.
pub data ShareAnswer {ℓ} (A : Type ℓ) : Type ℓ where
  threw : Text → ShareAnswer A
  refused : ℕ → Text → ShareAnswer A
  replied : A → ShareAnswer A

-- `fetchShares` up to its request, and from the answer on.
unfoldable pub fetch_begin : SharesPage → SharesPage
fetch_begin p = record p { loading = true; err = none }

abbrev pub body_or_status : (ℕ → Text) → ℕ → Text → Text
body_or_status number_text status [] = codes "request failed (" ++ (number_text status ++ codes ")")
body_or_status number_text status (c ∷ s) = c ∷ s

unfoldable pub fetch_end : (ℕ → Text) → ShareAnswer ShareList → SharesPage → SharesPage
fetch_end number_text (threw m) p = record p { err = some m; data_ = none; loading = false }
fetch_end number_text (refused status body) p = record p {
  err = some (
      if status == 401
      then codes "api key required. set one on the settings page."
      else body_or_status number_text status (take 240 body));
  data_ = none;
  loading = false;
}
fetch_end number_text (replied l) p = record p { data_ = some l; loading = false }

-- `.filter(Boolean)` on texts that may be missing.
abbrev pub truthy : List (Option Text) → List Text
truthy [] = []
truthy (none ∷ ts) = truthy ts
truthy (some [] ∷ ts) = truthy ts
truthy (some (c ∷ s) ∷ ts) = (c ∷ s) ∷ truthy ts

abbrev pub hay : ShareItem → Text
hay s = lower (
    join (codes " ") (
      truthy (some s.id ∷ s.top_title ∷ s.top_artist ∷ s.filename ∷ s.note ∷ some s.query_id ∷ [])))

unfoldable pub filtered : SharesPage → List ShareItem
filtered p = elim p.data_ [
  | none ↦ []
  | some l ↦
      let needle = lower (trim p.q) in
      if is_empty needle
      then l.shares
      else filter (λ (s : ShareItem). includes (hay s) needle) l.shares
]

unfoldable pub start_edit : ShareItem → SharesPage → SharesPage
start_edit s p = record p { editing_id = some s.id; note_draft = or_else s.note [] }

unfoldable pub cancel_edit : SharesPage → SharesPage
cancel_edit p = record p { editing_id = none; note_draft = [] }

abbrev pub details : Option Text → ToastInput
details d = record {
  variant = none;
  title = [];
  description = d;
  duration_ms = none;
  action = none;
}

-- `saveNote` up to its request, with the note that it sends.
unfoldable pub save_note_begin : Text → SharesPage → SharesPage × Text
save_note_begin id p = (record p { saving_id = some id }, take 280 p.note_draft)

-- The update of the list, where the server answers with the note `new`.
abbrev pub with_note : Text → Option Text → ShareItem → ShareItem
with_note id new s = if text_eq s.id id then record s { note = new } else s

abbrev pub map_shares : (List ShareItem → List ShareItem) → Option ShareList → Option ShareList
map_shares f none = none
map_shares f (some l) = some (record l { shares = f l.shares })

abbrev pub note_title : Option Text → Text
note_title none = codes "note cleared"
note_title (some []) = codes "note cleared"
note_title (some (c ∷ s)) = codes "note updated"

unfoldable pub save_note_end : ℕ → Text → ShareAnswer ShareItem → SharesPage → SharesPage
unfolding toast
save_note_end now id (threw m) p = record p {
  toasts = (toast error p.toasts now (codes "rename failed") (details (some m))).0;
  saving_id = none;
}
save_note_end now id (refused status body) p = record p {
  toasts = (toast error p.toasts now (codes "rename failed") (details (some (take 200 body)))).0;
  saving_id = none;
}
save_note_end now id (replied updated) p = record p {
  data_ = map_shares (map (with_note id updated.note)) p.data_;
  toasts = (toast success p.toasts now (note_title updated.note) (details none)).0;
  editing_id = none;
  note_draft = [];
  saving_id = none;
}

-- `revoke` up to its request.
unfoldable pub revoke_begin : Bool → Text → SharesPage → Option SharesPage
revoke_begin confirmed id p = if confirmed then some (record p { busy_id = some id }) else none

abbrev pub drop_share : Text → Option ShareList → Option ShareList
drop_share id none = none
drop_share id (some l) = some (record {
  shares = filter (λ (s : ShareItem). not (text_eq s.id id)) l.shares;
  total = l.total - 1;
})

-- The rest of `revoke`, with the start of the `fetchShares` that it does not wait for.
unfoldable pub revoke_end : ℕ → Text → ShareAnswer (Unit {0}) → SharesPage → SharesPage
unfolding toast fetch_begin
revoke_end now id (threw m) p = record p {
  toasts = (toast error p.toasts now (codes "revoke failed") (details (some m))).0;
  busy_id = none;
}
revoke_end now id (refused status body) p = record p {
  toasts = (toast error p.toasts now (codes "revoke failed") (details (some (take 200 body)))).0;
  busy_id = none;
}
revoke_end now id (replied _) p =
    record (fetch_begin (record p {
      toasts = (toast success p.toasts now (codes "share revoked") (details none)).0;
      data_ = drop_share id p.data_;
    })) { busy_id = none }
