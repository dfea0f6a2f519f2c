-- ===== src/Keys.antt =====
-- web/app/settings/keys/page.tsx: the choice of a token's lifetime, and the list of tokens with the
-- handlers that create, rotate and revoke them.
-- A handler is split at its `await`s. Times are in seconds; `number_text` is `String` of a number.
pub mod Lifetimes
pub mod Handlers
pub mod Panel
pub mod Entries
use clawhum.Prelude.{
  ℕ, ◌+◌, ◌-◌, ◌*◌, ◌/◌, max, Bool, true, false, not, ◌&&◌, ◌||◌, Option, none, some, List, [], ◌∷◌,
  ◌++◌, if◌then◌else◌, ltb, leb, ◌==◌, any, filter, is_empty,
}
use clawhum.Prelude.Text.{Text, codes}

-- The fields of `KeyRow` that its page always has; the others only show restrictions.
pub record KeyRow : Type 0 where
  pub id : Text
  pub name : Text
  pub roles : List Text
  pub rpm : ℕ
  pub created_at : ℕ
  pub last_used_at : ℕ
  pub secret_hint : Text
  pub expires_at : ℕ
  pub expired : Bool
  pub scopes : List Text
  pub effective_scopes : List Text

pub record CreatedKey : Type 0 where
  pub row : KeyRow
  pub secret : Text

pub record KeyPolicy : Type 0 where
  pub max_ttl_days : ℕ
  pub default_ttl_days : ℕ
  pub available_scopes : List Text
  pub allowed_scopes : List Text

pub data ListState : Type 0 where
  loading : ListState
  ready : List KeyRow → ListState
  error : ℕ → Text → ListState

-- `timeAgo`, where `d` is the age in seconds, rounded down.
module _ (number_text : ℕ → Text) where
  unfoldable pub time_ago : ℕ → ℕ → Text
  time_ago now ts =
      if ts == 0
      then codes "never"
      else if ltb (now - ts) 60
      then codes "just now"
      else if ltb (now - ts) 3600
      then number_text ((now - ts) / 60) ++ codes "m ago"
      else if ltb (now - ts) 86400
      then number_text ((now - ts) / 3600) ++ codes "h ago"
      else number_text ((now - ts) / 86400) ++ codes "d ago"

-- A lifetime in days, or "never".
pub data Ttl : Type 0 where
  days : ℕ → Ttl
  never : Ttl

pub record TtlChoice : Type 0 where
  pub value : Ttl
  pub label : Text

abbrev pub is_days : ℕ → TtlChoice → Bool
is_days n c = elim c.value [ days m ↦ m == n | never ↦ false ]

abbrev pub at_most : ℕ → TtlChoice → Bool
at_most cap c = elim c.value [ days m ↦ leb m cap | never ↦ false ]

abbrev pub base_choice : ℕ → Text → TtlChoice
base_choice n label = record { value = days n; label = label }

abbrev pub base_choices : List TtlChoice
base_choices =
    base_choice 1 (codes "in 1 day")
    ∷ base_choice 7 (codes "in 7 days")
    ∷ base_choice 30 (codes "in 30 days")
    ∷ base_choice 90 (codes "in 90 days")
    ∷ base_choice 180 (codes "in 180 days")
    ∷ base_choice 365 (codes "in 365 days")
    ∷ []

abbrev pub cap_of : Option KeyPolicy → ℕ
cap_of none = 0
cap_of (some p) = p.max_ttl_days

-- `ttlChoices` behind its constants: the choices of `base` under the cap.
unfoldable pub choices_under : (ℕ → Text) → ℕ → List TtlChoice → List TtlChoice
choices_under number_text cap base =
    let filtered = if ltb 0 cap then filter (at_most cap) base else base in
    let capped =
      if ltb 0 cap && not (any (is_days cap) filtered)
      then filtered
        ++ record {
          value = days cap;
          label = codes "in " ++ (number_text cap ++ codes " days (max)");
        }
          ∷ []
      else filtered in
    if cap == 0 then capped ++ record { value = never; label = codes "never" } ∷ [] else capped

unfoldable pub ttl_choices : (ℕ → Text) → Option KeyPolicy → List TtlChoice
unfolding choices_under
ttl_choices number_text policy = choices_under number_text (cap_of policy) base_choices

-- The lifetime that is chosen when a policy arrives.
unfoldable pub ttl_of_policy : KeyPolicy → Ttl → Ttl
ttl_of_policy p chosen =
    if ltb 0 p.default_ttl_days
    then days p.default_ttl_days
    else if ltb 0 p.max_ttl_days
    then days p.max_ttl_days
    else chosen

-- `ttlDays === "never" ? 0 : Number(ttlDays)`
unfoldable pub sent_days : Ttl → ℕ
sent_days (days n) = n
sent_days never = 0
