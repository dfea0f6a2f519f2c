-- ===== src/Export/Roundtrip.antt =====
-- What `rowsToCsv` of web/lib/export.ts writes, read back by the RFC 4180 reader.
use mathlib.Core.List.{append-nil, append_assoc}
use clawhum.Prelude.{
  ℕ, false, some, List, [], ◌∷◌, ◌++◌, map, if◌then◌else◌, any, is_empty, ◌≡◌, refl, ap, arith,
  Bool-cases, inl, inr,
}
use clawhum.Prelude.Text.{Text, join}
use clawhum.Export.{
  Value, missing, text, number, FlatRow, is_special, double_quotes, escape, flat_columns, crlf,
  value_text, csv_field, csv_line, rows_to_csv,
}
use clawhum.Export.Reader.{
  Mode, bare, quoted, closing, Reading, step_in, read_from, start, complete, read_csv,
}

module _ (row : List Text) (rows : List (List Text)) where
  abbrev at : Mode → Text → Reading
  at m f = record { mode = m; field = f; row = row; rows = rows }

  quoted_body :
      (f s t : Text)
      → read_from (at quoted f) (double_quotes s ++ b'"' ∷ t) ≡ read_from (at closing (f ++ s)) t
  unfolding read_from step_in double_quotes
  quoted_body f [] t = rw append-nil
  quoted_body f (c ∷ s) t = ground (arith, quoted_body (f ++ c ∷ []) s t, append_assoc f (c ∷ []) s)

  bare_body :
      (f s t : Text)
      → any is_special s ≡ false
      → read_from (at bare f) (s ++ t) ≡ read_from (at bare (f ++ s)) t
  unfolding read_from step_in is_special
  bare_body f [] t h = rw append-nil
  bare_body f (c ∷ s) t h = ground (arith, bare_body (f ++ c ∷ []) s t, append_assoc f (c ∷ []) s)

  -- A field followed by a comma.
  read-escape_comma :
      (s t : Text)
      → read_from (at bare []) (escape s ++ b',' ∷ t)
        ≡ read_from (record { mode = bare; field = []; row = row ++ s ∷ []; rows = rows }) t
  unfolding read_from step_in escape
  read-escape_comma s t = elim (Bool-cases (any is_special s)) [
    | inl e ↦ rw (e, append_assoc, quoted_body)
    | inr e ↦ rw (e, bare_body [] s (b',' ∷ t) e)
  ]

  -- A field followed by CRLF.
  read-escape_crlf :
      (s t : Text)
      → read_from (at bare []) (escape s ++ 13 ∷ 10 ∷ t)
        ≡ read_from
            (record { mode = bare; field = []; row = []; rows = rows ++ (row ++ s ∷ []) ∷ [] })
            t
  unfolding read_from step_in escape
  read-escape_crlf s t = elim (Bool-cases (any is_special s)) [
    | inl e ↦ rw (e, append_assoc, quoted_body)
    | inr e ↦ rw (e, bare_body [] s (13 ∷ 10 ∷ t) e)
  ]

abbrev line : Text → List Text → Text
line f fs = join (b',' ∷ []) (map escape (f ∷ fs))

read-line :
    (row : List Text) (rows : List (List Text)) (f : Text) (fs : List Text) (t : Text)
    → read_from
        (record { mode = bare; field = []; row = row; rows = rows })
        (line f fs ++ 13 ∷ 10 ∷ t)
      ≡ read_from
          (record { mode = bare; field = []; row = []; rows = rows ++ (row ++ f ∷ fs) ∷ [] })
          t
unfolding join
read-line row rows f [] t = read-escape_crlf row rows f t
read-line row rows f (g ∷ fs) t =
    rw (append_assoc, read-escape_comma, read-line (row ++ f ∷ []) rows g fs t, append_assoc)

csv_field-escape : (show : ℕ → Text) (v : Value) → csv_field show v ≡ escape (value_text show v)
unfolding csv_field value_text escape
csv_field-escape show missing = refl
csv_field-escape show (text []) = refl
csv_field-escape show (text (c ∷ s)) = refl
csv_field-escape show (number n) = empty_or_not (show n)
  where
    empty_or_not : (s : Text) → (if is_empty s then [] else escape s) ≡ escape s
    empty_or_not [] = refl
    empty_or_not (c ∷ s) = refl

module _ (show : ℕ → Text) where
  -- The texts of a row's fields, in the order of the columns.
  abbrev pub texts : FlatRow → List Text
  texts r = map (λ c. value_text show (c.1 r)) flat_columns

  abbrev pub column_names : List Text
  column_names = map (λ c. c.0) flat_columns

  csv_line-eq : (r : FlatRow) → csv_line show r ≡ join (b',' ∷ []) (map escape (texts r))
  unfolding csv_line flat_columns
  csv_line-eq r = simp csv_field-escape

  read-csv_line :
      (rows : List (List Text)) (r : FlatRow) (t : Text)
      → read_from (record start { rows = rows }) (csv_line show r ++ 13 ∷ 10 ∷ t)
        ≡ read_from (record start { rows = rows ++ texts r ∷ [] }) t
  unfolding flat_columns
  read-csv_line rows r t = rw csv_line-eq (read-line [] rows _ _ t)

  -- A first line that reads as `fs`, and the lines of the rows after it.
  read-lines :
      (rows : List (List Text)) (first : Text) (fs : List Text)
      → ((rs : List (List Text)) (t : Text)
          → read_from (record start { rows = rs }) (first ++ 13 ∷ 10 ∷ t)
            ≡ read_from (record start { rows = rs ++ fs ∷ [] }) t)
      → (rs : List FlatRow)
      → read_from
          (record start { rows = rows })
          (join crlf (first ∷ map (csv_line show) rs) ++ crlf)
        ≡ some (record start { rows = rows ++ fs ∷ map texts rs })
  unfolding join read_from
  read-lines rows first fs reads [] = reads rows []
  read-lines rows first fs reads (r ∷ rs) = rw (
    append_assoc,
    append_assoc,
    reads rows,
    read-lines (rows ++ fs ∷ []) (csv_line show r) (texts r) (λ q t. read-csv_line q r t) rs,
    append_assoc,
  )

  header-escape : join (b',' ∷ []) column_names ≡ join (b',' ∷ []) (map escape column_names)
  unfolding flat_columns escape is_special
  header-escape = refl

  read-header :
      (rows : List (List Text)) (t : Text)
      → read_from (record start { rows = rows }) (join (b',' ∷ []) column_names ++ 13 ∷ 10 ∷ t)
        ≡ read_from (record start { rows = rows ++ column_names ∷ [] }) t
  unfolding flat_columns
  read-header rows t = rw header-escape (read-line [] rows _ _ t)

  -- The CSV text of any rows is read back by the RFC 4180 reader as one record of the column names,
  -- then one record for each row with the texts of its fields, whatever characters they hold.
  pub read_csv-rows_to_csv :
      (rs : List FlatRow) → read_csv (rows_to_csv show rs) ≡ some (column_names ∷ map texts rs)
  unfolding read_csv rows_to_csv
  read_csv-rows_to_csv rs =
      ap complete (read-lines [] (join (b',' ∷ []) column_names) column_names read-header rs)
