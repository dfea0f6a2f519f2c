-- ===== src/NotifyPrefs/Prefs.antt =====
-- The preferences of web/lib/notifyPrefs.ts through localStorage.
use clawhum.Prelude.{suc, Bool, true, some, ◌≡◌, refl, arith}
use clawhum.Prelude.Text.{text_eq}
use clawhum.Json.{Json, parsed, is_object}
use clawhum.NotifyPrefs.{
  NotifyPrefs, Device, prefs_json, safe_parse, merge_prefs, load_prefs, save_prefs,
}

merge_prefs-prefs_json : (p : NotifyPrefs) → merge_prefs (some (prefs_json p)) ≡ p
unfolding merge_prefs prefs_json text_eq
merge_prefs-prefs_json p = refl

-- In a window whose storage accepts them, the preferences that are saved are the ones that are loaded
-- next, field for field.
pub load-save_prefs :
    (accepts : Json → Bool) (d : Device) (p : NotifyPrefs)
    → d.window ≡ true
    → accepts (prefs_json p) ≡ true
    → (d' : Device) × (save_prefs accepts d p ≡ some d') × (load_prefs d' ≡ p)
unfolding save_prefs
load-save_prefs accepts d p w a = (_, ground arith, loaded)
  where
    loaded : load_prefs (record d { prefs = parsed (prefs_json p); events = suc d.events }) ≡ p
    loaded = unfold load_prefs safe_parse prefs_json is_object in rw w (merge_prefs-prefs_json p)
