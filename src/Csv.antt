-- ===== src/Csv.antt =====
-- src/Werk/Data/Csv/CsvParser.{hpp,cpp}: the lines of a file, split at commas into one of two
-- buffers. The file is the lines that are left; `trim` is boost's.
pub mod Line
pub mod Rows
mod Rounds
mod Tests
use werk.Prelude.{
  ℕ, ◌%◌, List, [], ◌∷◌, Option, none, some, Bool, true, false, ◌==◌, if◌then◌else◌, length,
}
use werk.Prelude.Words.{add_u64}
use werk.Prelude.Keys.{Text}
use werk.Config.Ini.{lines_of}
use Line.{fields}

-- `lines` is `none` while no file is open.
pub record CsvParser : Type 0 where
  pub lines : Option (List Text)
  pub line : Text
  pub headers : List Text
  pub values0 : List Text
  pub values1 : List Text
  pub values_n : ℕ

abbrev pub is_even : ℕ → Bool
is_even n = n % 2 == 0

unfoldable pub values : CsvParser → List Text
values p = if is_even p.values_n then p.values0 else p.values1

unfoldable pub last_values : CsvParser → List Text
last_values p = if is_even p.values_n then p.values1 else p.values0

abbrev pub is_open : CsvParser → Bool
is_open p = elim p.lines [ none ↦ false | some ls ↦ true ]

-- `open`, given the file that stands at the path, if it can be opened.
unfoldable pub open_file : Option Text → CsvParser → Bool × CsvParser
unfolding lines_of
open_file file p = elim p.lines [
  | some ls ↦ (false, p)
  | none ↦ elim file [
    | none ↦ (false, p)
    | some text ↦ (true, record p { lines = some (lines_of text) })
  ]
]

unfoldable pub close_file : CsvParser → CsvParser
close_file p = record p { lines = none }

-- `std::getline` over blank lines: the line that is parsed, and what is left.
unfoldable pub next_line : List Text → Option (Text × List Text)
next_line [] = none
next_line ([] ∷ ls) = next_line ls
next_line ((c ∷ cs) ∷ ls) = some (c ∷ cs, ls)

-- Where the values of a line go: the headers, or the buffer of the next line.
unfoldable pub store_values : Bool → List Text → CsvParser → CsvParser
store_values true vs p = record p { headers = vs }
store_values false vs p =
    let n = add_u64 p.values_n 1 in
    if is_even n
    then record p { values0 = vs; values_n = n }
    else record p { values1 = vs; values_n = n }

unfoldable pub lines_left : Option (List Text) → List Text
lines_left none = []
lines_left (some ls) = ls

-- A read of lines at the end of the file leaves it open and with no lines.
abbrev pub drained : Option (List Text) → Option (List Text)
drained none = none
drained (some ls) = some []

unfoldable pub move_next_line :
    (Text → Text) → Bool → Option (Text × List Text) → CsvParser → Bool × CsvParser
unfolding fields store_values
move_next_line trim load_headers (some (l, ls)) p = (
  true,
  store_values load_headers (fields trim (length l) l) (record p { lines = some ls; line = l }),
)
move_next_line trim load_headers none p =
    let p' = record p { lines = drained p.lines; line = [] } in
    (false, if load_headers then p' else store_values false [] p')

-- `moveNext`
unfoldable pub move_next : (Text → Text) → Bool → CsvParser → Bool × CsvParser
unfolding move_next_line next_line lines_left
move_next trim load_headers p = move_next_line trim load_headers (next_line (lines_left p.lines)) p
