-- ===== src/Csv/Line.antt =====
-- The loop of `CsvParser::moveNext` over the values of a line.
use werk.Prelude.{ℕ, zero, suc, List, [], ◌∷◌, Option, none, some, ◌==◌, ◌&&◌, if◌then◌else◌}
use werk.Prelude.Keys.{Text, last_of, without_last}

abbrev pub cons_first : ℕ → Text × Option Text → Text × Option Text
cons_first c (s, rest) = (c ∷ s, rest)

-- `_line.find(',', i)`: what stands before the comma, and what stands behind it if there is one.
unfoldable pub until_comma : Text → Text × Option Text
until_comma [] = ([], none)
until_comma (c ∷ cs) =
    let found = until_comma cs in if c == b',' then ([], some cs) else cons_first c found

-- The comma behind the next quote.
unfoldable pub after_quote : Text → Text × Option Text
unfolding until_comma
after_quote [] = ([], none)
after_quote (c ∷ cs) =
    let found = after_quote cs in
    if c == b'"' then cons_first c (until_comma cs) else cons_first c found

-- The value at `i`, as it stands in the line, and the rest of the line.
unfoldable pub split_value : Text → Text × Option Text
unfolding until_comma after_quote
split_value [] = ([], none)
split_value (c ∷ cs) = if c == b'"' then cons_first c (after_quote cs) else until_comma (c ∷ cs)

-- The quotes around a trimmed value.
unfoldable pub unquote : Text → Text
unquote [] = []
unquote (c ∷ []) = c ∷ []
unquote (c ∷ d ∷ ds) =
    if c == b'"' && (last_of d ds == b'"') then without_last (d ∷ ds) else c ∷ d ∷ ds

-- The loop, on fuel: a round for each comma, and one more.
unfoldable pub fields : (Text → Text) → ℕ → Text → List Text
unfolding split_value unquote
fields trim zero text = unquote (trim (split_value text).0) ∷ []
fields trim (suc fuel) text =
    let (s, behind) = split_value text in
    unquote (trim s) ∷ elim behind [ none ↦ [] | some rest ↦ fields trim fuel rest ]
