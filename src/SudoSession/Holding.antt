-- ===== src/SudoSession/Holding.antt =====
-- That the session in the state of web/app/settings/security/sudo/page.tsx is the stored one.
use clawhum.Prelude.{ℕ, true, false, Option, none, some, [], if-map, if◌then◌else◌, ◌≡◌, refl}
use clawhum.Prelude.Text.{Text, text_eq}
use clawhum.Json.{Json, absent, malformed, parsed, Cell, truthy, get, field_of}
use clawhum.SudoSession.{
  Held, SudoPage, IssueResp, Answer, threw, refused, replied, held_of, held_json, load_held, mount,
  is_over_ms, issue_end,
}

-- The session that a storage entry holds, over or not.
abbrev pub stored : Cell → Option Held
stored absent = none
stored malformed = none
stored (parsed j) = held_of j

abbrev pub IsSynced : SudoPage → Type 0
IsSynced p = p.held ≡ stored p.slot

-- What the server issues has a token and an expiry that are not empty.
abbrev pub IsIssued : Answer IssueResp → Type 0
IsIssued (replied j) = (truthy (some j.token) ≡ true) × (truthy (some j.expires_at) ≡ true)
IsIssued (threw m) = Unit
IsIssued (refused status detail) = Unit

abbrev pub issued_held : IssueResp → Held
issued_held j = record { token = j.token; expires_at = j.expires_at }

held_of-held_json :
    (v : Held)
    → truthy (some v.token) ≡ true
    → truthy (some v.expires_at) ≡ true
    → held_of (held_json v) ≡ some v
unfolding held_of held_json get field_of text_eq
held_of-held_json v ht he = rw (ht, he) refl

load_held-issued :
    (to_number : Json → Option ℕ) (now_ms : ℕ) (v : Held)
    → truthy (some v.token) ≡ true
    → truthy (some v.expires_at) ≡ true
    → load_held to_number now_ms (parsed (held_json v))
      ≡ (if is_over_ms to_number v now_ms then (none, absent) else (some v, parsed (held_json v)))
unfolding load_held
load_held-issued to_number now_ms v t x = rw (load_held, held_of-held_json v t x) refl

issue_end-stored :
    (number_text : ℕ → Text) (set_item : Json → Option Text) (p : SudoPage) (j : IssueResp)
    → set_item (held_json (issued_held j)) ≡ none
    → issue_end number_text set_item (replied j) p ≡ record p {
      slot = parsed (held_json (issued_held j));
      held = some (issued_held j);
      code = [];
      busy = false;
    }
unfolding issue_end
issue_end-stored number_text set_item p j e = rw (issue_end, e) refl

-- A session that was issued and stored is held again after a reload of the page, unless it is over
-- by then; and then the reload removes it from the storage.
pub mount-issue_end :
    (to_number : Json → Option ℕ) (number_text : ℕ → Text) (set_item : Json → Option Text)
    → (now_ms : ℕ) (p : SudoPage) (j : IssueResp) → IsIssued (replied j)
    → set_item (held_json (issued_held j)) ≡ none
    → let p' = issue_end number_text set_item (replied j) p in
      let reloaded = mount to_number now_ms p' in
      (p'.held ≡ some (issued_held j))
      × (reloaded.held
          ≡ (if is_over_ms to_number (issued_held j) now_ms then none else some (issued_held j)))
      × (reloaded.slot ≡ (if is_over_ms to_number (issued_held j) now_ms then absent else p'.slot))
unfolding mount
mount-issue_end to_number number_text set_item now_ms p j (t, x) e =
    rw
      (
        issue_end-stored number_text set_item p j e,
        mount,
        load_held-issued to_number now_ms (issued_held j) t x,
      )
      (
        refl,
        if-map (λ (r : Option Held × Cell). r.0) (is_over_ms to_number (issued_held j) now_ms) _ _,
        if-map (λ (r : Option Held × Cell). r.1) (is_over_ms to_number (issued_held j) now_ms) _ _,
      )
