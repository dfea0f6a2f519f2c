-- ===== src/Keys/Panel.antt =====
-- The panels of web/app/settings/keys/page.tsx that show the trusted devices or the source addresses
-- of one token: `openDevices` and `openHistory`, which differ in what they show and in one message.
use clawhum.Prelude.{
  ℕ, Bool, false, Option, none, some, [], ◌∷◌, ◌++◌, if◌then◌else◌, ◌==◌, ◌≡◌, refl, Bool-cases,
  inl, inr,
}
use clawhum.Prelude.Text.{Text, codes, text_eq}

-- `opened` is the token whose panel is open, and `shown` what the panel shows of the server's answer.
pub record Panel {ℓ} (V : Type ℓ) : Type ℓ where
  pub opened : Option Text
  pub shown : Option V
  pub err : Option Text
  pub loading : Option Text

pub data PanelAnswer {ℓ} (V : Type ℓ) : Type ℓ where
  threw : Text → PanelAnswer V
  refused : ℕ → Text → PanelAnswer V
  replied : V → PanelAnswer V

abbrev pub is_open : Option Text → Text → Bool
is_open none id = false
is_open (some t) id = text_eq t id

-- `msg || failed with status`
abbrev pub message_or_status : (ℕ → Text) → ℕ → Text → Text
message_or_status number_text status [] = codes "failed with " ++ number_text status
message_or_status number_text status (c ∷ s) = c ∷ s

module _ {ℓ} {V : Type ℓ} where
  abbrev pub closed : Panel V
  closed = record { opened = none; shown = none; err = none; loading = none }

  -- A click on the button of a token, up to the request: the token whose answer is awaited, if any.
  unfoldable pub open_begin : Text → Panel V → Panel V × Option Text
  open_begin id p =
      if is_open p.opened id
      then (record p { opened = none; shown = none; err = none }, none)
      else (record { opened = some id; shown = none; err = none; loading = some id }, some id)

  -- The answer; `forbidden` is the message for 403.
  unfoldable pub open_end : (ℕ → Text) → Text → PanelAnswer V → Panel V → Panel V
  open_end number_text forbidden (threw m) p = record p { err = some m; loading = none }
  open_end number_text forbidden (refused status msg) p = record p {
    err = some (
        if status == 403
        then forbidden
        else if status == 404
        then codes "Token not found in this workspace."
        else message_or_status number_text status msg);
    loading = none;
  }
  open_end number_text forbidden (replied v) p = record p { shown = some v; loading = none }

-- A use of the panel in which no button is clicked while an answer is awaited. The index is the token
-- whose answer is awaited; `server` is what the server answers for a token.
pub data Use {ℓ} {V : Type ℓ} (number_text : ℕ → Text) (forbidden : Text)
    (server : Text → PanelAnswer V) : Panel V → Option Text → Type ℓ where
  start : Use number_text forbidden server closed none
  clicked :
      {p : Panel V} (id : Text)
      → Use number_text forbidden server p none
      → Use number_text forbidden server (open_begin id p).0 (open_begin id p).1
  answered :
      {p : Panel V} (id : Text)
      → Use number_text forbidden server p (some id)
      → Use number_text forbidden server (open_end number_text forbidden (server id) p) none

-- What is shown, if anything, is the server's answer for the open panel.
abbrev pub IsOwned {ℓ} : {V : Type ℓ} → (Text → PanelAnswer V) → Panel V → Option V → Type ℓ
IsOwned server p none = Unit
IsOwned server p (some v) = (id : Text) × (p.opened ≡ some id) × (server id ≡ replied v)

-- While no answer is awaited nothing is loading, and what is shown belongs to the open panel; while one
-- is awaited, its token is the one that is open and loading, and nothing is shown.
abbrev pub IsFaithful {ℓ} : {V : Type ℓ} → (Text → PanelAnswer V) → Panel V → Option Text → Type ℓ
IsFaithful server p none = (p.loading ≡ none) × IsOwned server p p.shown
IsFaithful server p (some id) = (p.loading ≡ some id) × (p.opened ≡ some id) × (p.shown ≡ none)

module _ {ℓ} {V : Type ℓ} (number_text : ℕ → Text) (forbidden : Text)
    (server : Text → PanelAnswer V) where
  open_begin-IsFaithful :
      (id : Text) (p : Panel V)
      → IsFaithful server p none
      → IsFaithful server (open_begin id p).0 (open_begin id p).1
  unfolding open_begin
  open_begin-IsFaithful id p (idle, owned) = elim (Bool-cases (is_open p.opened id)) [
    | inl e ↦ rw (open_begin, e) (idle, tt)
    | inr e ↦ rw (open_begin, e) (refl, refl, refl)
  ]

  open_end-IsFaithful :
      (id : Text) (answer : PanelAnswer V) (p : Panel V)
      → server id ≡ answer
      → IsFaithful server p (some id)
      → IsFaithful server (open_end number_text forbidden answer p) none
  unfolding open_end
  open_end-IsFaithful id (threw m) p e (loads, opened, empty) = (refl, rw empty tt)
  open_end-IsFaithful id (refused status msg) p e (loads, opened, empty) = (refl, rw empty tt)
  open_end-IsFaithful id (replied w) p e (loads, opened, empty) = (refl, (id, opened, e))

  -- As long as no button is clicked while an answer is awaited: while one is awaited, its token is the
  -- one whose panel is open and that is marked as loading, and nothing is shown; and otherwise
  -- nothing is loading, and a panel that shows something shows the server's answer for the token
  -- whose panel is open.
  pub Use-IsFaithful :
      (panel : Panel V) (awaited : Option Text)
      → Use number_text forbidden server panel awaited
      → IsFaithful server panel awaited
  Use-IsFaithful panel awaited start = (refl, tt)
  Use-IsFaithful panel awaited (clicked {p} id u) =
      open_begin-IsFaithful id p (Use-IsFaithful p none u)
  Use-IsFaithful panel awaited (answered {p} id u) =
      open_end-IsFaithful id (server id) p refl (Use-IsFaithful p (some id) u)
