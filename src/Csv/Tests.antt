-- ===== src/Csv/Tests.antt =====
-- A table with a comma, a quote and a formula in it.
use aerobi_api.Common.{◌≡◌, refl, List, [], ◌∷◌, map, ℕ, zero, suc, String}
use aerobi_api.Common.Text.{Text, codes}
use aerobi_api.Csv.{text, number, CsvColumn, to_csv, escape_cell, neutralize_formula_injection}
use aerobi_api.Csv.Reader.{read_csv}
use aerobi_api.Csv.RoundTrip.{shown, titles, IsPlainDecimal, read_csv-to_csv}

-- A stand-in for the decimal form: as many strokes.
abbrev strokes : ℕ → Text
strokes zero = []
strokes (suc n) = b'1' ∷ strokes n

strokes-IsPlainDecimal : IsPlainDecimal strokes
strokes-IsPlainDecimal zero = refl
strokes-IsPlainDecimal (suc n) = strokes-IsPlainDecimal n

abbrev Owner : Type 0
Owner = String × ℕ

abbrev name_column : CsvColumn Owner
name_column = record { header = codes "Nome"; accessor = λ (name, n). text (codes name) }

abbrev count_column : CsvColumn Owner
count_column = record { header = codes "Total, geral"; accessor = λ (name, n). number n }

abbrev owners : List Owner
owners = ("=1+1", 2) ∷ ("a \"b\", c", 3) ∷ []

escaped_test : escape_cell strokes (text (codes "=a,b")) ≡ codes "\"'=a,b\""
unfolding escape_cell neutralize_formula_injection
escaped_test = refl

csv_example :
    read_csv (to_csv strokes owners (name_column ∷ count_column ∷ []))
    ≡ titles (name_column ∷ count_column ∷ [])
      ∷ map (shown strokes (name_column ∷ count_column ∷ [])) owners
csv_example = read_csv-to_csv strokes strokes-IsPlainDecimal name_column (count_column ∷ []) owners
