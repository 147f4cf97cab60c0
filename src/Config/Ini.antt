-- ===== src/Config/Ini.antt =====
-- src/Werk/Config/IniConfigSource.cpp. The file is its bytes; `trim` is boost's `trim_copy`.
use werk.Prelude.{
  ℕ, List, [], ◌∷◌, ◌++◌, Option, none, some, Bool, true, false, ◌==◌, if◌then◌else◌,
}
use werk.Prelude.Keys.{Text, text_eq, insert, last_of, without_last}

-- `std::getline` until it fails: the pieces between line ends; nothing stands behind a last line end.
abbrev cons_head : ℕ → List Text → List Text
cons_head c [] = (c ∷ []) ∷ []
cons_head c (l ∷ ls) = (c ∷ l) ∷ ls

unfoldable pub lines_of : Text → List Text
lines_of [] = []
lines_of (c ∷ cs) = elim (c == 10) [ true ↦ [] ∷ lines_of cs | false ↦ cons_head c (lines_of cs) ]

-- `line.substr(line.find_first_not_of(' '))`
abbrev pub skip_blanks : Text → Text
skip_blanks [] = []
skip_blanks (c ∷ cs) = if c == b' ' then skip_blanks cs else c ∷ cs

-- `if (prefix.length() > 0) prefix += "."`
abbrev pub dotted : Text → Text
dotted [] = []
dotted (c ∷ cs) = (c ∷ cs) ++ (b'.' ∷ [])

-- What `find('=')` splits a line into.
unfoldable pub split_equal : Text → Option (Text × Text)
split_equal [] = none
split_equal (c ∷ cs) = elim (c == b'=') [
  | true ↦ some ([], cs)
  | false ↦ elim (split_equal cs) [ none ↦ none | some (k, v) ↦ some (c ∷ k, v) ]
]

-- What a line does, once its blanks are skipped.
pub data Line : Type 0 where
  skip missing_bracket missing_equal : Line
  scope : Text → Line
  assign : Text → Text → Line

unfoldable pub header : Text → Line
header rest = if last_of b'[' rest == b']' then scope (without_last rest) else missing_bracket

unfoldable pub assignment : Text → Line
assignment l = elim (split_equal l) [ none ↦ missing_equal | some (k, v) ↦ assign k v ]

unfoldable pub classify : Text → Line
unfolding header assignment
classify [] = skip
classify (c ∷ cs) = if c == b'#' then skip else if c == b'[' then header cs else assignment (c ∷ cs)

module _ (trim : Text → Text) where
  -- The loop of `reloadConfig`: whether it succeeded, and the values so far.
  unfoldable pub reload_lines : List Text → Text → List (Text × Text) → Bool × List (Text × Text)
  reload_lines [] scope_prefix values = (true, values)
  reload_lines (l ∷ ls) scope_prefix values = elim (classify (skip_blanks l)) [
    | skip ↦ reload_lines ls scope_prefix values
    | missing_bracket ↦ (false, values)
    | missing_equal ↦ (false, values)
    | scope s ↦ reload_lines ls (dotted s) values
    | assign k v ↦ reload_lines ls scope_prefix (insert (scope_prefix ++ trim k) v values)
  ]

  -- `reloadConfig`; `none` is a file that cannot be opened.
  unfoldable pub reload_ini : Option Text → List (Text × Text) → Bool × List (Text × Text)
  unfolding reload_lines lines_of
  reload_ini none values = (false, values)
  reload_ini (some file) values = reload_lines (lines_of file) [] values
