-- ===== src/Tests/Batch.antt =====
-- The batch page of web/app/batch/page.tsx on concrete inputs.
use clawhum.Prelude.{ℕ, ◌≤◌, ◌+◌, true, false, none, some, List, [], ◌∷◌, ◌≡◌, refl, arith}
use clawhum.Prelude.Text.{Text, codes, text_eq, lower, lower_unit, ends_with}
use clawhum.Toast.{toast}
use clawhum.Batch.{
  ArchiveFile, BatchPage, refused, on_pick, set_top_k, run_begin, run_failed, run_end,
}
use clawhum.Batch.Sending.{
  IsReady, BatchEvent, picked, chosen, began, ended, run_events, opened, sent-IsArchive,
}

abbrev zip : ArchiveFile
zip = record { name = codes "Hums.ZIP"; size = 2048 }

abbrev page : BatchPage
page = record {
  file = some zip;
  top_k = 3;
  loading = false;
  error = some (codes "old");
  result = none;
  toasts = record { counter = 0; toasts = []; listeners = []; delivered = [] };
}

abbrev waiting : BatchPage
waiting = record page { loading = true; error = none }

abbrev number_text : ℕ → Text
number_text n = (b'0' + n) ∷ []

abbrev to_fixed : ℕ → ℕ → Text
to_fixed n d = []

page-IsReady : IsReady page
unfolding ends_with lower lower_unit text_eq
page-IsReady = ((refl, omega arith), omega arith, omega arith)

begins : run_begin page ≡ some (waiting, zip)
unfolding run_begin
begins = refl

-- A number is chosen while the first batch is on its way, and the second is sent behind its answer.
abbrev events : List BatchEvent
events = picked (some zip) ∷ began ∷ chosen (some 50) ∷ ended 5 zip (refused 413 none) ∷ []

sent-IsArchive_example :
    (ends_with (lower zip.name) (codes ".zip") ≡ true)
    × (zip.size ≤ 209715200)
    × (1 ≤ 10)
    × (10 ≤ 10)
unfolding run_events run_begin on_pick set_top_k run_end run_failed toast ends_with lower lower_unit
    text_eq
sent-IsArchive_example =
    sent-IsArchive number_text to_fixed page.toasts events
      (record (run_events number_text to_fixed events (opened page.toasts)) {
        loading = true;
        error = none;
      })
      zip refl
