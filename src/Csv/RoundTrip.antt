-- ===== src/Csv/RoundTrip.antt =====
-- What a reader finds in a written file.
use aerobi_api.Common.{
  ◌≡◌, refl, sym, ap, ◌∙◌, false, List, [], ◌∷◌, ◌++◌, map, ℕ, ◌==◌, any, inl, inr, Bool-cases,
  arith, ==_iff,
}
use aerobi_api.Common.Text.{Text}
use aerobi_api.Csv.{
  CsvCellValue, text, number, null, CsvColumn, quote, comma, cr, lf, is_special, double_quotes,
  quoted_if_special, utf8_bom, neutralize_formula_injection, escape_cell, join, to_csv,
}
use aerobi_api.Csv.Reader.{Mode, fresh, plain, quoted, closing, returned, read, read_csv}

append_assoc : {A : Type 0} (r s t : List A) → (r ++ s) ++ t ≡ r ++ (s ++ t)
append_assoc [] s t = refl
append_assoc (c ∷ r) s t = ap (λ x. c ∷ x) (append_assoc r s t)

append_nil : {A : Type 0} (r : List A) → r ++ [] ≡ r
append_nil [] = refl
append_nil (c ∷ r) = ap (λ x. c ∷ x) (append_nil r)

-- Plain characters are read as they are.
read-plain :
    (t acc : Text) (row : List Text) (rest : Text)
    → any is_special t ≡ false
    → read plain acc row (t ++ rest) ≡ read plain (acc ++ t) row rest
read-plain [] acc row rest h = rw (append_nil acc) refl
read-plain (c ∷ t) acc row rest h =
    let a : (c == comma) ≡ false = ground arith in
    let b : (c == cr) ≡ false = ground arith in
    let k : any is_special t ≡ false = ground arith in
    rw (a, b, sym (append_assoc acc (c ∷ []) t)) (read-plain t (acc ++ c ∷ []) row rest k)

read-quoted :
    (t acc : Text) (row : List Text) (rest : Text)
    → read quoted acc row (double_quotes t ++ quote ∷ rest) ≡ read closing (acc ++ t) row rest
read-quoted [] acc row rest = rw (append_nil acc) refl
read-quoted (c ∷ t) acc row rest = elim (Bool-cases (c == quote)) [
  | inl hit ↦
      let same : c ≡ quote = (==_iff c quote).0 hit in
      rw (hit, same, sym (append_assoc acc (quote ∷ []) t))
        (read-quoted t (acc ++ quote ∷ []) row rest)
  | inr miss ↦
      rw (miss, miss, sym (append_assoc acc (c ∷ []) t)) (read-quoted t (acc ++ c ∷ []) row rest)
]

-- The modes in which a cell may end.
abbrev Ends : Mode → Type 0
Ends fresh = Unit
Ends plain = Unit
Ends closing = Unit
Ends _ = ⊥

abbrev CellRead : Text → Type 0
CellRead t =
    (m : Mode) × Ends m
    × ((row : List Text) (rest : Text)
        → read fresh [] row (quoted_if_special t ++ rest) ≡ read m t row rest)

read-cell : (t : Text) → CellRead t
read-cell [] = (fresh, tt, λ row rest. refl)
read-cell (c ∷ t) = elim (Bool-cases (any is_special (c ∷ t))) [
  | inl special ↦ (
    closing,
    tt,
    λ row rest. rw special (
        rw (append_assoc (double_quotes (c ∷ t)) (quote ∷ []) rest)
          (read-quoted (c ∷ t) [] row rest)),
  )
  | inr ordinary ↦
      let a : (c == quote) ≡ false = ground arith in
      let b : (c == comma) ≡ false = ground arith in
      let d : (c == cr) ≡ false = ground arith in
      let k : any is_special t ≡ false = ground arith in
      (plain, tt, λ row rest. rw (ordinary, a, b, d) (read-plain t (c ∷ []) row rest k))
]

read-comma :
    (m : Mode) (acc : Text) (row : List Text) (t : Text)
    → Ends m
    → read m acc row (comma ∷ t) ≡ read fresh [] (row ++ acc ∷ []) t
read-comma fresh acc row t e = refl
read-comma plain acc row t e = refl
read-comma closing acc row t e = refl
read-comma quoted acc row t e = elim e [ ]
read-comma returned acc row t e = elim e [ ]

-- How a record ends before a rest of the text, and what then becomes of it.
abbrev Stops : Text → (List Text → List (List Text)) → Type 0
Stops rest k =
    (m : Mode) (acc : Text) (row : List Text) → Ends m → read m acc row rest ≡ k (row ++ acc ∷ [])

end-Stops : Stops [] (λ r. r ∷ [])
end-Stops fresh acc row e = refl
end-Stops plain acc row e = refl
end-Stops closing acc row e = refl
end-Stops quoted acc row e = elim e [ ]
end-Stops returned acc row e = elim e [ ]

crlf-Stops : (t : Text) → Stops (cr ∷ lf ∷ t) (λ r. r ∷ read fresh [] [] t)
crlf-Stops t fresh acc row e = refl
crlf-Stops t plain acc row e = refl
crlf-Stops t closing acc row e = refl
crlf-Stops t quoted acc row e = elim e [ ]
crlf-Stops t returned acc row e = elim e [ ]

abbrev record_text : Text → List Text → Text
record_text v vs = join (comma ∷ []) (map quoted_if_special (v ∷ vs))

read-record :
    (v : Text) (vs row : List Text) (rest : Text) (k : List Text → List (List Text))
    → Stops rest k
    → read fresh [] row (record_text v vs ++ rest) ≡ k (row ++ v ∷ vs)
read-record v [] row rest k stop = let (m, e, cell) = read-cell v in cell row rest ∙ stop m v row e
read-record v (w ∷ vs) row rest k stop =
    let (m, e, cell) = read-cell v in
    ap (read fresh [] row) (append_assoc (quoted_if_special v) (comma ∷ record_text w vs) rest)
    ∙ cell row (comma ∷ (record_text w vs ++ rest))
    ∙ read-comma m v row (record_text w vs ++ rest) e
    ∙ read-record w vs (row ++ v ∷ []) rest k stop
    ∙ ap k (append_assoc row (v ∷ []) (w ∷ vs))

abbrev record_of : Text × List Text → Text
record_of (v, vs) = record_text v vs

abbrev cells_of : Text × List Text → List Text
cells_of (v, vs) = v ∷ vs

read-records :
    (r : Text × List Text) (rs : List (Text × List Text))
    → read fresh [] [] (join (cr ∷ lf ∷ []) (map record_of (r ∷ rs))) ≡ map cells_of (r ∷ rs)
read-records (v, vs) [] =
    ap (read fresh [] []) (sym (append_nil (record_text v vs)))
    ∙ read-record v vs [] [] (λ x. x ∷ []) end-Stops
read-records (v, vs) (r ∷ rs) =
    let t = join (cr ∷ lf ∷ []) (map record_of (r ∷ rs)) in
    read-record v vs [] (cr ∷ lf ∷ t) (λ x. x ∷ read fresh [] [] t) (crlf-Stops t)
    ∙ ap (λ x. (v ∷ vs) ∷ x) (read-records r rs)

abbrev pub titles : {T : Type 0} → List (CsvColumn T) → List Text
titles columns = map (λ col. neutralize_formula_injection col.header) columns

-- What a cell shows: a text with its formula triggers disarmed, a number in decimal.
module _ (decimal : ℕ → Text) where
  abbrev pub cell_text : CsvCellValue → Text
  cell_text null = []
  cell_text (number n) = decimal n
  cell_text (text t) = neutralize_formula_injection t

  abbrev pub shown : {T : Type 0} → List (CsvColumn T) → T → List Text
  shown columns row = map (λ col. cell_text (col.accessor row)) columns

  -- A number has no special characters.
  abbrev pub IsPlainDecimal : Type 0
  IsPlainDecimal = (n : ℕ) → any is_special (decimal n) ≡ false

  module _ (plain_decimal : IsPlainDecimal) where
    escape-cell_text : (v : CsvCellValue) → escape_cell decimal v ≡ quoted_if_special (cell_text v)
    unfolding escape_cell
    escape-cell_text null = refl
    escape-cell_text (number n) = rw (plain_decimal n) refl
    escape-cell_text (text t) = refl

    module _ {T : Type 0} where
      escape-cells :
          (f : CsvColumn T → CsvCellValue) (columns : List (CsvColumn T))
          → map (λ col. escape_cell decimal (f col)) columns
            ≡ map quoted_if_special (map (λ col. cell_text (f col)) columns)
      escape-cells f [] = refl
      escape-cells f (col ∷ columns) = rw (escape-cell_text (f col), escape-cells f columns) refl

      abbrev line : CsvColumn T → List (CsvColumn T) → T → Text × List Text
      line col columns row = (cell_text (col.accessor row), shown columns row)

      escape-rows :
          (col : CsvColumn T) (columns : List (CsvColumn T)) (rows : List T)
          → map
              (λ row.
                join (comma ∷ []) (map (λ c. escape_cell decimal (c.accessor row)) (col ∷ columns)))
              rows
            ≡ map record_of (map (line col columns) rows)
      escape-rows col columns [] = refl
      escape-rows col columns (row ∷ rows) = λ i.
          join (comma ∷ []) (escape-cells (λ c. c.accessor row) (col ∷ columns) i)
          ∷ escape-rows col columns rows i

      cells-rows :
          (col : CsvColumn T) (columns : List (CsvColumn T)) (rows : List T)
          → map cells_of (map (line col columns) rows) ≡ map (shown (col ∷ columns)) rows
      cells-rows col columns [] = refl
      cells-rows col columns (row ∷ rows) =
          ap (λ x. shown (col ∷ columns) row ∷ x) (cells-rows col columns rows)

      -- A reader of RFC 4180 finds in a written table with at least one column its titles and,
      -- record by record, its cells, each text with its formula trigger disarmed and otherwise
      -- unchanged, whatever commas, quotes and line ends it has. It is assumed that the decimal form
      -- of a number has no such character.
      pub read_csv-to_csv :
          (col : CsvColumn T) (columns : List (CsvColumn T)) (rows : List T)
          → read_csv (to_csv decimal rows (col ∷ columns))
            ≡ titles (col ∷ columns) ∷ map (shown (col ∷ columns)) rows
      unfolding to_csv
      read_csv-to_csv col columns rows =
          (λ i. read_csv (
            utf8_bom
            ∷ join (cr ∷ lf ∷ []) (
                join (comma ∷ []) (escape-cells (λ c. text c.header) (col ∷ columns) i)
                ∷ escape-rows col columns rows i)))
          ∙ read-records (neutralize_formula_injection col.header, titles columns)
              (map (line col columns) rows)
          ∙ ap (λ x. titles (col ∷ columns) ∷ x) (cells-rows col columns rows)
