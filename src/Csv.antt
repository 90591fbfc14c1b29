-- ===== src/Csv.antt =====
-- src/common/utils/csv.util.ts. `decimal` is what `String` makes of a number.
pub mod Reader
pub mod RoundTrip
mod Tests
use aerobi_api.Common.{
  Bool, true, false, ◌||◌, List, [], ◌∷◌, ◌++◌, map, ℕ, ◌==◌, any, if◌then◌else◌,
}
use aerobi_api.Common.Text.{Text}

pub data CsvCellValue : Type 0 where
  text : Text → CsvCellValue
  number : ℕ → CsvCellValue
  null : CsvCellValue

pub record CsvColumn (T : Type 0) : Type 0 where
  pub header : Text
  pub accessor : T → CsvCellValue

abbrev pub utf8_bom : ℕ
utf8_bom = 0xFEFF

abbrev pub quote : ℕ
quote = 34

abbrev pub comma : ℕ
comma = 44

abbrev pub cr : ℕ
cr = 13

abbrev pub lf : ℕ
lf = 10

abbrev pub formula_injection_triggers : List ℕ
formula_injection_triggers = b'=' ∷ b'+' ∷ b'-' ∷ b'@' ∷ 9 ∷ 13 ∷ []

unfoldable pub neutralize_formula_injection : Text → Text
neutralize_formula_injection [] = []
neutralize_formula_injection (c ∷ t) =
    if any (λ k. k == c) formula_injection_triggers then 39 ∷ c ∷ t else c ∷ t

-- /[",\r\n]/
abbrev pub is_special : ℕ → Bool
is_special c = c == quote || (c == comma || (c == cr || c == lf))

abbrev pub double_quotes : Text → Text
double_quotes [] = []
double_quotes (c ∷ t) = if c == quote then quote ∷ quote ∷ double_quotes t else c ∷ double_quotes t

abbrev pub quoted_if_special : Text → Text
quoted_if_special t = if any is_special t then quote ∷ (double_quotes t ++ quote ∷ []) else t

abbrev pub join : Text → List Text → Text
join separator [] = []
join separator (t ∷ []) = t
join separator (t ∷ u ∷ ts) = t ++ (separator ++ join separator (u ∷ ts))

module _ (decimal : ℕ → Text) where
  unfoldable pub escape_cell : CsvCellValue → Text
  unfolding neutralize_formula_injection
  escape_cell null = []
  escape_cell (number n) = decimal n
  escape_cell (text t) = quoted_if_special (neutralize_formula_injection t)

  unfoldable pub to_csv : {T : Type 0} → List T → List (CsvColumn T) → Text
  unfolding escape_cell
  to_csv rows columns =
      let header = join (comma ∷ []) (map (λ col. escape_cell (text col.header)) columns) in
      let body =
        map (λ row. join (comma ∷ []) (map (λ col. escape_cell (col.accessor row)) columns)) rows in
      utf8_bom ∷ join (cr ∷ lf ∷ []) (header ∷ body)
