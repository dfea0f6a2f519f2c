-- ===== src/Export/Reader.antt =====
-- A reader of RFC 4180 text, independent of the writer of web/lib/export.ts: one transition for each
-- character, and `none` on text that the grammar does not allow.
use clawhum.Prelude.{
  ℕ, Bool, true, false, ◌&&◌, Option, none, some, List, [], ◌∷◌, ◌++◌, if◌then◌else◌, ◌==◌,
  is_empty,
}
use clawhum.Prelude.Text.{Text}

-- `bare`: outside quotes; `quoted`: inside; `closing`: after a quote that may end the field;
-- `ending`: after CR.
pub data Mode : Type 0 where
  bare quoted closing ending : Mode

pub record Reading : Type 0 where
  pub mode : Mode
  pub field : Text
  pub row : List Text
  pub rows : List (List Text)

abbrev pub next_field : Reading → Reading
next_field r = record r { mode = bare; field = []; row = r.row ++ r.field ∷ [] }

abbrev pub next_row : Reading → Reading
next_row r = record {
  mode = bare;
  field = [];
  row = [];
  rows = r.rows ++ (r.row ++ r.field ∷ []) ∷ [];
}

unfoldable pub step_in : Mode → Reading → ℕ → Option Reading
step_in bare r c =
    if c == b','
    then some (next_field r)
    else if c == 13
    then some (record r { mode = ending })
    else if c == 10
    then none
    else if c == b'"'
    then (if is_empty r.field then some (record r { mode = quoted }) else none)
    else some (record r { field = r.field ++ c ∷ [] })
step_in quoted r c =
    if c == b'"'
    then some (record r { mode = closing })
    else some (record r { field = r.field ++ c ∷ [] })
step_in closing r c =
    if c == b'"'
    then some (record r { mode = quoted; field = r.field ++ c ∷ [] })
    else if c == b','
    then some (next_field r)
    else if c == 13
    then some (record r { mode = ending })
    else none
step_in ending r c = if c == 10 then some (next_row r) else none

abbrev pub then_read : Option Reading → (Reading → Option Reading) → Option Reading
then_read none f = none
then_read (some r) f = f r

unfoldable pub read_from : Reading → Text → Option Reading
unfolding step_in
read_from r [] = some r
read_from r (c ∷ s) = then_read (step_in r.mode r c) (λ r'. read_from r' s)

abbrev pub start : Reading
start = record { mode = bare; field = []; row = []; rows = [] }

abbrev pub is_bare : Mode → Bool
is_bare bare = true
is_bare quoted = false
is_bare closing = false
is_bare ending = false

abbrev pub complete : Option Reading → Option (List (List Text))
complete none = none
complete (some r) =
    if is_bare r.mode && is_empty r.row && is_empty r.field then some r.rows else none

-- The records of a text whose last record is ended by CRLF.
unfoldable pub read_csv : Text → Option (List (List Text))
unfolding read_from
read_csv s = complete (read_from start s)
