-- ===== src/Tests/Engine.antt =====
-- The notification engine of web/lib/notifyEngine.ts on concrete inputs.
use mathlib.Core.List.{Perm}
use clawhum.Prelude.{
  List, map, if◌then◌else◌, IsSelection, ℕ, Bool, true, false, some, [], ◌∷◌, ◌++◌, ◌≡◌, refl,
  arith,
}
use clawhum.Prelude.Text.{codes}
use clawhum.Json.{absent}
use clawhum.NotifyPrefs.{NotifyPrefs, match_kind, default_prefs}
use clawhum.NotifyEngine.{ActivityItem, ActivityResp, Engine, tick_begin, tick_finish}
use clawhum.NotifyEngine.Due.{IsDue, IsChronological, notice, tick_finish-shown}
use clawhum.NotifyEngine.Runs.{Run, Step, IsGuarded, Run-IsGuarded}

abbrev keeps_all : {A : Type 0} → A → Bool
keeps_all v = true

abbrev loud : NotifyPrefs
loud = record default_prefs { enabled = true }

abbrev engine : Engine
engine = record {
  device = record { window = true; prefs = absent; fired = absent; events = 0 };
  cursor = 10;
  visible = false;
  granted = true;
  shown = [];
  pings = 0;
  started = true;
  inflight = false;
  waiting = [];
}

abbrev item : ℕ → ActivityItem
item at = record {
  id = codes "m" ++ at ∷ [];
  kind = match_kind;
  title = codes "Blue";
  subtitle = [];
  ok = true;
  created_at = at;
  href = codes "/r/1";
}

abbrev answer : ActivityResp
answer = record { items = item 12 ∷ item 9 ∷ item 11 ∷ []; latest_at = 12 }

tick_finish-shown_example :
    (due its : List ActivityItem) × IsSelection (IsDue engine loud) answer.items due
    × Perm its due
    × IsChronological its
    × ((tick_finish 100 keeps_all keeps_all engine loud (some answer)).shown
        ≡ [] ++ (if engine.granted then map notice its else []))
tick_finish-shown_example =
    tick_finish-shown 100 keeps_all keeps_all engine loud answer (λ v. refl) (λ c. refl)
      (omega arith)

two_ticks :
    Run keeps_all keeps_all engine
      (tick_begin 2 keeps_all keeps_all (tick_begin 1 keeps_all keeps_all engine))
two_ticks = Run.next (Run.next Run.here (Step.tick _ 1)) (Step.tick _ 2)

Run-IsGuarded_example :
    IsGuarded keeps_all keeps_all
      (tick_begin 2 keeps_all keeps_all (tick_begin 1 keeps_all keeps_all engine))
Run-IsGuarded_example =
    Run-IsGuarded keeps_all keeps_all two_ticks (record { single = omega arith; flagged = refl })
