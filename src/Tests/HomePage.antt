-- ===== src/Tests/HomePage.antt =====
-- The home page, over the stores, and the unread badge on concrete inputs.
use clawhum.Prelude.{
  ℕ, ◌≤◌, Bool, true, false, none, some, List, [], ◌∷◌, if◌then◌else◌, ltb, ◌≡◌, refl, arith,
}
use clawhum.Prelude.Text.{Text, codes}
use clawhum.Json.{malformed}
use clawhum.Model.{StoredMatch}
use clawhum.History.{holds, drop_waveform, get_match}
use clawhum.History.Saving.{latest}
use clawhum.Onboarding.{load_state, is_complete}
use clawhum.Toast.{success}
use clawhum.HomePage.{
  HomePage, Recording, MatchResponse, on_audio_begin, on_audio_matched, on_audio_end, stored_match,
}
use clawhum.HomePage.Effects.{newest_variant, on_audio_end-stores}
use clawhum.Activity.{Badge, get_last_seen, check, mark_seen, polled, shown, run_events}
use clawhum.Activity.Unread.{run_events-quiet}

abbrev number_text : ℕ → Text
number_text n = codes "12"

abbrev fits : List StoredMatch → Bool
fits ms = true

abbrev recording : Recording
recording = record { name = codes "hum.wav"; duration_sec = 4; waveform = 3 ∷ 9 ∷ [] }

abbrev response : MatchResponse
response = record { query_id = codes "q1"; elapsed_ms = 12; count = 0; results = [] }

abbrev page : HomePage
page = record {
  loading = false;
  last = none;
  err = some (codes "request failed");
  browser = record { window = true; slot = holds []; posted = [] };
  checklist = record { window = true; cell = malformed; writable = true; events = 0 };
  toasts = record { counter = 0; toasts = []; listeners = []; delivered = [] };
}

on_audio_end-stores_example :
    let m = stored_match 7 recording response none in
    let p' =
      on_audio_end number_text number_text fits 7 recording response none
        (on_audio_matched response (on_audio_begin page)) in
    (get_match p'.browser (codes "q1")
      ≡ some (if fits (latest page.browser m) then m else drop_waveform m))
    × (is_complete (load_state p'.checklist) ≡ true)
    × (p'.last ≡ some response)
    × (newest_variant p'.toasts ≡ some success)
    × (p'.loading ≡ false)
    × (p'.err ≡ none)
on_audio_end-stores_example =
    on_audio_end-stores number_text number_text fits 7 recording response none page refl
      (refl, refl) refl

abbrev badge : Badge
badge = record { usable = true; cursor = some 3; unread = true }

run_events-quiet_example :
    let b' = run_events (polled 8 ∷ shown 5 ∷ []) (mark_seen 8 badge) in
    (b'.unread ≡ false) × (8 ≤ get_last_seen b') × ((check 9 b').unread ≡ ltb (get_last_seen b') 9)
unfolding get_last_seen
run_events-quiet_example =
    run_events-quiet 8 9 (polled 8 ∷ shown 5 ∷ []) badge refl (omega arith)
      (omega arith, (omega arith, tt))
