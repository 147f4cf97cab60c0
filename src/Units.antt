-- ===== src/Units.antt =====
-- src/Werk/Utility/Units.cpp and Booleans.cpp: numbers with units, and Booleans, out of text. The
-- standard library's conversions are parameters; they give `none` where they throw.
mod Parse
mod Tests
use werk.Prelude.{
  ℕ, ◌==◌, List, [], ◌∷◌, Option, none, some, Bool, true, false, ◌&&◌, leb, if◌then◌else◌,
}
use werk.Prelude.Keys.{Text, text_eq, text_beq, lookup}

-- A unit and its factor.
abbrev pub Units : Type 0
Units = List (Text × ℕ)

abbrev pub storage_units : Units
storage_units =
    (b'P' ∷ [], 1125899906842624)
    ∷ (b'T' ∷ [], 1099511627776)
    ∷ (b'G' ∷ [], 1073741824)
    ∷ (b'M' ∷ [], 1048576)
    ∷ (b'K' ∷ [], 1024)
    ∷ []

abbrev pub time_units : Units
time_units =
    (b'd' ∷ [], 86400000000000)
    ∷ (b'h' ∷ [], 3600000000000)
    ∷ (b'm' ∷ [], 60000000000)
    ∷ (b's' ∷ [], 1000000000)
    ∷ (b'm' ∷ b's' ∷ [], 1000000)
    ∷ (b'u' ∷ b's' ∷ [], 1000)
    ∷ (b'n' ∷ b's' ∷ [], 1)
    ∷ []

-- `parseBool`: t, T, true or True
unfoldable pub parse_bool : Text → Bool
parse_bool value =
    if text_beq value (b't' ∷ [])
    then true
    else if text_beq value (b'T' ∷ [])
    then true
    else if text_beq value (b't' ∷ b'r' ∷ b'u' ∷ b'e' ∷ [])
    then true
    else text_beq value (b'T' ∷ b'r' ∷ b'u' ∷ b'e' ∷ [])

-- `tryParseBool`
unfoldable pub try_parse_bool : Text → Option Bool
unfolding parse_bool
try_parse_bool value =
    if parse_bool value
    then some true
    else if text_beq value (b'f' ∷ [])
    then some false
    else if text_beq value (b'F' ∷ [])
    then some false
    else if text_beq value (b'f' ∷ b'a' ∷ b'l' ∷ b's' ∷ b'e' ∷ [])
    then some false
    else if text_beq value (b'F' ∷ b'a' ∷ b'l' ∷ b's' ∷ b'e' ∷ [])
    then some false
    else none

abbrev pub is_digit : ℕ → Bool
is_digit ch = leb b'0' ch && leb ch b'9'

-- The test of the loop of `parseUnits`: whether `n` moves past a byte.
unfoldable pub is_number_char : Bool → Bool → ℕ → Bool
is_number_char first had_decimal ch =
    if is_digit ch
    then true
    else if first && (ch == b'-')
    then true
    else if had_decimal
    then false
    else ch == b'.'

-- The loop: what stands before `n` and what stands behind it.
unfoldable pub split_number : Bool → Bool → Text → Text × Text
unfolding is_number_char
split_number first had_decimal [] = ([], [])
split_number first had_decimal (ch ∷ chs) =
    let (number, rest) = split_number false (if ch == b'.' then true else had_decimal) chs in
    if is_number_char first had_decimal ch then (ch ∷ number, rest) else ([], ch ∷ chs)

-- The loop over the units; the multiplier is 1 where there is none.
unfoldable pub multiplier : Text → Units → ℕ
multiplier unit units = elim (lookup unit units) [ none ↦ 1 | some m ↦ m ]

-- What `parseUnits` does behind the loop, with `stoull`, and the product of `stod` with a
-- multiplier, cast to uint64_t.
abbrev pub convert :
    (Text → Option ℕ) → (Text → ℕ → Option ℕ) → Text → Units → Text × Text → Option ℕ
convert stoull scale value units (number, []) = stoull value
convert stoull scale value units (number, ch ∷ chs) = scale number (multiplier (ch ∷ chs) units)

unfoldable pub parse_units : (Text → Option ℕ) → (Text → ℕ → Option ℕ) → Text → Units → Option ℕ
unfolding split_number multiplier
parse_units stoull scale value units =
    convert stoull scale value units (split_number true false value)

-- `formatUnits`: the divisor and the unit.
unfoldable pub format_units : ℕ → Units → ℕ × Text
format_units value [] = (1, [])
format_units value ((unit, m) ∷ units) = if leb m value then (m, unit) else format_units value units
