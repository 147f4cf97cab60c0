-- ===== src/Csv/Tests.antt =====
-- The parser on rows with quoted values, in the manner of src/WerkTest/Data/Csv/CsvParser.cpp.
use werk.Prelude.{List, [], ◌∷◌, ◌++◌, some}
use werk.Prelude.Keys.{Text}
use werk.Csv.{CsvParser}
use werk.Csv.Rows.{Cell, plain, quoted, row_text, blank}

abbrev trim : Text → Text
trim s = s

-- Two blank lines, `a,"b,c",` and a row `d`.
abbrev cells : List Cell
cells = quoted (b'b' ∷ b',' ∷ b'c' ∷ []) ∷ plain [] ∷ []

abbrev parser : CsvParser
parser = record {
  lines = some (blank 2 ++ (row_text (plain (b'a' ∷ [])) cells ∷ (b'd' ∷ []) ∷ []));
  line = [];
  headers = (b'h' ∷ []) ∷ [];
  values0 = (b'z' ∷ []) ∷ [];
  values1 = [];
  values_n = 4;
}
