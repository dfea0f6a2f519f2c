-- ===== src/Batch.antt =====
-- web/app/batch/page.tsx: the page that sends an archive of clips, and its handlers.
-- `runBatch` is split at its `await`s, of which one step stands for all. `now` is the clock's reading
-- for the toasts of Toast.antt, `number_text` is `String` of a number, and `to_fixed n d` is
-- `(n / d).toFixed(1)`. The downloads and the drag highlight are calls of the DOM.
pub mod Sending
use clawhum.Prelude.{
  ℕ, ◌+◌, ◌*◌, ◌/◌, min, max, Bool, true, false, not, ◌&&◌, Option, none, some, List, [], ◌∷◌, ◌++◌,
  if◌then◌else◌, ltb, leb, ◌==◌, is_empty, take, or_else,
}
use clawhum.Prelude.Text.{Text, codes, lower, ends_with}
use clawhum.Prelude.Sort.{sum_by}
use clawhum.Toast.{Store, ToastInput, toast, success, error}

-- The parts of a `File` that the page reads.
pub record ArchiveFile : Type 0 where
  pub name : Text
  pub size : ℕ

pub record BatchMatch : Type 0 where
  pub track_id : Text
  pub title : Text
  pub artist : Text
  pub score : ℕ

pub record BatchRow : Type 0 where
  pub filename : Text
  pub error : Option Text
  pub elapsed_ms : ℕ
  pub matches : List BatchMatch

pub record BatchResponse : Type 0 where
  pub batch_id : Text
  pub count : ℕ
  pub ok : ℕ
  pub failed : ℕ
  pub results : List BatchRow

abbrev pub max_zip_mb : ℕ
max_zip_mb = 200

pub data BatchFormat : Type 0 where
  json csv : BatchFormat

pub record BatchPage : Type 0 where
  pub file : Option ArchiveFile
  pub top_k : ℕ
  pub loading : Bool
  pub error : Option Text
  pub result : Option BatchResponse
  pub toasts : Store

-- How the request ends: it throws, it has a status that is not ok with the `detail` of its body, or
-- the body is read.
pub data BatchAnswer : Type 0 where
  threw : Text → BatchAnswer
  refused : ℕ → Option Text → BatchAnswer
  downloaded : BatchAnswer
  replied : BatchResponse → BatchAnswer

unfoldable pub on_pick : Option ArchiveFile → BatchPage → BatchPage
unfolding ends_with
on_pick none p = record p { error = none; result = none; file = none }
on_pick (some f) p =
    if not (ends_with (lower f.name) (codes ".zip"))
    then record p {
      error = some (codes "Please choose a .zip archive containing audio clips.");
      result = none;
    }
    else if ltb (max_zip_mb * 1024 * 1024) f.size
    then record p { error = some (codes "Archive too large. Max 200 MiB."); result = none }
    else record p { error = none; result = none; file = some f }

-- The field "top k": `none` where the text is not a number, and 0 for a negative one.
unfoldable pub set_top_k : Option ℕ → BatchPage → BatchPage
set_top_k n p =
    let read = or_else n 0 in record p { top_k = max 1 (min 10 (if read == 0 then 1 else read)) }

-- `runBatch` up to its request: the file that it sends.
unfoldable pub run_begin : BatchPage → Option (BatchPage × ArchiveFile)
run_begin p = elim p.file [
  | none ↦ none
  | some f ↦ some (record p { loading = true; error = none }, f)
]

abbrev pub described : Text → ToastInput
described d = record {
  variant = none;
  title = [];
  description = some d;
  duration_ms = none;
  action = none;
}

-- The `catch` of `runBatch`, with the message of what was thrown.
unfoldable pub run_failed : ℕ → Text → BatchPage → BatchPage
unfolding toast
run_failed now msg p = record p {
  error = some msg;
  loading = false;
  toasts = (toast error p.toasts now (codes "batch failed") (described (take 200 msg))).0;
}

-- The detail of a refusal, where it is truthy.
unfoldable pub detail_of : (ℕ → Text) → ℕ → Option Text → Text
detail_of number_text status none = codes "request failed (" ++ (number_text status ++ codes ")")
detail_of number_text status (some []) =
    codes "request failed (" ++ (number_text status ++ codes ")")
detail_of number_text status (some (c ∷ s)) = c ∷ s

module _ (number_text : ℕ → Text) (to_fixed : ℕ → ℕ → Text) where
  unfoldable pub fmt_bytes : ℕ → Text
  fmt_bytes n =
      if ltb n 1024
      then number_text n ++ codes " B"
      else if ltb n (1024 * 1024)
      then to_fixed n 1024 ++ codes " KiB"
      else to_fixed n (1024 * 1024) ++ codes " MiB"

  -- `runBatch` from the answer on, for the file `f`.
  unfoldable pub run_end : ℕ → ArchiveFile → BatchAnswer → BatchPage → BatchPage
  unfolding run_failed detail_of fmt_bytes toast
  run_end now f (threw m) p = run_failed now m p
  run_end now f (refused status detail) p = run_failed now (detail_of number_text status detail) p
  run_end now f downloaded p = record p {
    loading = false;
    toasts =
        (toast success p.toasts now (codes "batch csv downloaded")
          (described (f.name ++ (codes " / " ++ fmt_bytes f.size)))).0;
  }
  run_end now f (replied j) p = record p {
    loading = false;
    result = some j;
    toasts =
        (toast success p.toasts now (codes "batch complete") (
          described (
            number_text j.ok
            ++ (codes "/"
                ++ (number_text j.count
                    ++ (codes " ok, " ++ (number_text j.failed ++ codes " failed"))))))).0;
  }

pub record BatchSummary : Type 0 where
  pub total : ℕ
  pub ok : ℕ
  pub failed : ℕ
  pub total_ms : ℕ
  pub avg_ms : ℕ

-- `Math.round(a / b)` for a positive `b`.
abbrev pub rounded : ℕ → ℕ → ℕ
rounded a b = (2 * a + b) / (2 * b)

unfoldable pub summary : BatchPage → Option BatchSummary
summary p = elim p.result [
  | none ↦ none
  | some r ↦
      let total_ms = sum_by (λ (row : BatchRow). row.elapsed_ms) r.results in
      some (record {
        total = r.count;
        ok = r.ok;
        failed = r.failed;
        total_ms = total_ms;
        avg_ms = if ltb 0 r.ok then rounded total_ms r.ok else 0;
      })
]
