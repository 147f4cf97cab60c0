-- ===== src/Units/Tests.antt =====
-- Numbers with units, on text of the tests of src/WerkTest/Utility/Units.cpp.
use werk.Prelude.{ℕ, ◌*◌, ◌-◌, ◌≡◌, refl, [], ◌∷◌, Option, none, some, true, false}
use werk.Prelude.Keys.{Text}
use werk.Units.{storage_units, parse_units, format_units, try_parse_bool, is_number_char}
use werk.Units.Parse.{IsUnit}

-- Conversions of these tests: of one digit.
abbrev stoull : Text → Option ℕ
stoull [] = none
stoull (d ∷ ds) = some (d - b'0')

abbrev scale : Text → ℕ → Option ℕ
scale ds m = elim (stoull ds) [ none ↦ none | some n ↦ some (n * m) ]

test_parse : parse_units stoull scale (b'5' ∷ b'K' ∷ []) storage_units ≡ some 5120
unfolding parse_units werk.Prelude.Keys.lookup
test_parse = refl

test_format : format_units 5120 storage_units ≡ (1024, b'K' ∷ [])
unfolding format_units
test_format = refl

test_bool : (try_parse_bool (b'T' ∷ []) ≡ some true) × (try_parse_bool (b'x' ∷ []) ≡ none)
unfolding try_parse_bool
test_bool = (refl, refl)

milliseconds-IsUnit : IsUnit (b'm' ∷ b's' ∷ [])
unfolding is_number_char
milliseconds-IsUnit true true = refl
milliseconds-IsUnit true false = refl
milliseconds-IsUnit false true = refl
milliseconds-IsUnit false false = refl
