-- ===== src/Csv/Reader.antt =====
-- A reader of RFC 4180, independent of the writer: cells between commas, records between CRLF, a
-- quoted cell in which two quotes stand for one.
use aerobi_api.Common.{List, [], ◌∷◌, ◌++◌, ◌==◌, if◌then◌else◌}
use aerobi_api.Common.Text.{Text}
use aerobi_api.Csv.{quote, comma, cr, lf}

pub data Mode : Type 0 where
  fresh plain quoted closing returned : Mode

-- What was read of the cell and of the record, and the rest of the text.
abbrev pub read : Mode → Text → List Text → Text → List (List Text)
read quoted acc row [] = (row ++ acc ∷ []) ∷ []
read _ acc row [] = (row ++ acc ∷ []) ∷ []
read quoted acc row (c ∷ t) =
    if c == quote then read closing acc row t else read quoted (acc ++ c ∷ []) row t
read returned acc row (c ∷ t) =
    if c == lf then (row ++ acc ∷ []) ∷ read fresh [] [] t else read plain (acc ++ c ∷ []) row t
read fresh acc row (c ∷ t) =
    if c == quote
    then read quoted acc row t
    else if c == comma
    then read fresh [] (row ++ acc ∷ []) t
    else if c == cr
    then read returned acc row t
    else read plain (acc ++ c ∷ []) row t
read plain acc row (c ∷ t) =
    if c == comma
    then read fresh [] (row ++ acc ∷ []) t
    else if c == cr
    then read returned acc row t
    else read plain (acc ++ c ∷ []) row t
read closing acc row (c ∷ t) =
    if c == quote
    then read quoted (acc ++ quote ∷ []) row t
    else if c == comma
    then read fresh [] (row ++ acc ∷ []) t
    else if c == cr
    then read returned acc row t
    else read plain (acc ++ c ∷ []) row t

abbrev pub read_csv : Text → List (List Text)
read_csv [] = []
read_csv (bom ∷ t) = read fresh [] [] t
