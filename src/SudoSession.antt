-- ===== src/SudoSession.antt =====
-- web/app/settings/security/sudo/page.tsx: the sudo session that the tab holds.
-- A handler is split at its `await`s. The entry of sessionStorage is a cell read through JSON.parse;
-- `to_number` is the number that JavaScript's arithmetic makes of a value (`none` for NaN),
-- `number_text` is `String` of a number, and `set_item` says whether the storage takes a value, or
-- the message with which it throws. Times are in seconds, except `now_ms`.
pub mod Clock
pub mod Holding
use clawhum.Prelude.{
  ℕ, ◌+◌, ◌-◌, ◌*◌, ◌/◌, ◌%◌, Bool, true, false, not, ◌&&◌, ◌||◌, Option, none, some, List, [], ◌∷◌,
  ◌++◌, if◌then◌else◌, leb, or_else,
}
use clawhum.Prelude.Text.{Text, codes, trim, pad_start}
use clawhum.Json.{Json, null, obj, end, field, get, truthy, Cell, absent, malformed, parsed}

pub record StatusResp : Type 0 where
  pub enabled : Bool
  pub ttl_seconds : ℕ
  pub max_ttl_seconds : ℕ
  pub epoch : ℕ

pub record IssueResp : Type 0 where
  pub token : Json
  pub ttl_seconds : ℕ
  pub expires_at : Json

-- The parts of `Held`; `null` is `none`.
pub record Held : Type 0 where
  pub token : Json
  pub expires_at : Json

pub record SudoPage : Type 0 where
  pub slot : Cell
  pub status : Option StatusResp
  pub held : Option Held
  pub now : ℕ
  pub code : Text
  pub busy : Bool
  pub error : Option Text
  pub load_error : Option Text

-- The tests of `loadHeld` on what it parsed; a falsy value has neither property.
unfoldable pub held_of : Json → Option Held
unfolding get truthy
held_of v = elim (get (some v) (codes "token")) [
  | none ↦ none
  | some t ↦ elim (get (some v) (codes "expires_at")) [
    | none ↦ none
    | some e ↦
        if truthy (some t) && truthy (some e)
        then some (record { token = t; expires_at = e })
        else none
  ]
]

unfoldable pub held_json : Held → Json
held_json v = obj (field (codes "token") v.token (field (codes "expires_at") v.expires_at end))

-- An answer of the server: `fetch` or `json` throws with a message, or a status that is not ok with
-- the `detail` of its body, or the body.
pub data Answer (A : Type 0) : Type 0 where
  threw : Text → Answer A
  refused : ℕ → Option Text → Answer A
  replied : A → Answer A

module _ (to_number : Json → Option ℕ) where
  -- `v.expires_at * 1000 <= Date.now()`; a comparison with NaN is false.
  unfoldable pub is_over_ms : Held → ℕ → Bool
  is_over_ms v now_ms = elim (to_number v.expires_at) [
    | none ↦ false
    | some e ↦ leb (e * 1000) now_ms
  ]

  -- `loadHeld`: what it returns and what it leaves in the storage.
  unfoldable pub load_held : ℕ → Cell → Option Held × Cell
  unfolding held_of is_over_ms
  load_held now_ms absent = (none, absent)
  load_held now_ms malformed = (none, malformed)
  load_held now_ms (parsed j) = elim (held_of j) [
    | none ↦ (none, parsed j)
    | some v ↦ if is_over_ms v now_ms then (none, absent) else (some v, parsed j)
  ]

  -- The effect of the mount, up to the request of `refresh`.
  unfoldable pub mount : ℕ → SudoPage → SudoPage
  unfolding load_held
  mount now_ms p =
      let r = load_held now_ms p.slot in record p { held = r.0; slot = r.1; load_error = none }

  -- `held.expires_at <= now`
  unfoldable pub is_over : Held → ℕ → Bool
  is_over v now = elim (to_number v.expires_at) [ none ↦ false | some e ↦ leb e now ]

  -- The timer sets `now`, and the effect on `held` and `now` follows.
  unfoldable pub expire : SudoPage → SudoPage
  unfolding is_over
  expire p = elim p.held [
    | none ↦ p
    | some v ↦ if is_over v p.now then record p { slot = absent; held = none } else p
  ]

  unfoldable pub tick : ℕ → SudoPage → SudoPage
  unfolding expire
  tick now_ms p = expire (record p { now = now_ms / 1000 })

  -- `remaining`, where it is a number.
  unfoldable pub remaining : SudoPage → Option ℕ
  remaining p = elim p.held [
    | none ↦ some 0
    | some v ↦ elim (to_number v.expires_at) [ none ↦ none | some e ↦ some (e - p.now) ]
  ]

-- `onIssue` and `onRevoke` up to their requests.
unfoldable pub request_begin : SudoPage → SudoPage
request_begin p = record p { busy = true; error = none }

module _ (number_text : ℕ → Text) where
  unfoldable pub format_remaining : ℕ → Text
  unfolding pad_start
  format_remaining secs =
      if leb secs 0
      then codes "expired"
      else number_text (secs / 60) ++ (b':' ∷ pad_start 2 b'0' (number_text (secs % 60)))

  abbrev pub status_text : ℕ → Text
  status_text status = codes "status " ++ number_text status

  unfoldable pub refresh_end : Answer StatusResp → SudoPage → SudoPage
  refresh_end (threw m) p = record p { load_error = some m }
  refresh_end (refused status detail) p = record p { load_error = some (status_text status) }
  refresh_end (replied s) p = record p { status = some s }

  -- `onIssue` from the answer on; `saveHeld` may throw.
  unfoldable pub issue_end : (Json → Option Text) → Answer IssueResp → SudoPage → SudoPage
  unfolding held_json
  issue_end set_item (threw m) p = record p { error = some m; busy = false }
  issue_end set_item (refused status detail) p = record p {
    error = some (or_else detail (status_text status));
    busy = false;
  }
  issue_end set_item (replied j) p =
      let next : Held = record { token = j.token; expires_at = j.expires_at } in
      elim (set_item (held_json next)) [
        | some m ↦ record p { error = some m; busy = false }
        | none ↦ record p {
          slot = parsed (held_json next);
          held = some next;
          code = [];
          busy = false;
        }
      ]

  unfoldable pub revoke_end : Answer Unit → SudoPage → SudoPage
  revoke_end (threw m) p = record p { error = some m; busy = false }
  revoke_end (refused status detail) p = record p {
    error = some (or_else detail (status_text status));
    busy = false;
  }
  revoke_end (replied _) p = record p { slot = absent; held = none; busy = false }
