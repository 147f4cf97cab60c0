-- ===== src/Units/Parse.antt =====
-- What `parseUnits` makes of a number with a unit.
use werk.Prelude.{
  ℕ, ◌≡◌, refl, ap, [], ◌∷◌, ◌++◌, Option, Bool, true, false, All, if◌then◌else◌, ◌==◌,
}
use werk.Prelude.Keys.{Text, text_eq}
use werk.Units.{is_digit, is_number_char, split_number, multiplier, parse_units, convert, Units}

-- A unit begins with a byte that no number has: no digit, `-` or `.`.
abbrev pub IsUnit : Text → Type 0
IsUnit [] = ⊥
IsUnit (ch ∷ chs) = (first had_decimal : Bool) → is_number_char first had_decimal ch ≡ false

abbrev pub IsDigits : Text → Type 0
IsDigits = All (λ ch. is_digit ch ≡ true)

is_number_char-digit :
    (first had_decimal : Bool) (ch : ℕ)
    → is_digit ch ≡ true
    → is_number_char first had_decimal ch ≡ true
unfolding is_number_char
is_number_char-digit first had_decimal ch h = rw h refl

split_number-digits :
    (first had_decimal : Bool) (ds unit : Text)
    → IsDigits ds
    → IsUnit unit
    → split_number first had_decimal (ds ++ unit) ≡ (ds, unit)
unfolding split_number
split_number-digits first had_decimal [] [] hd hu = absurd hu
split_number-digits first had_decimal [] (ch ∷ chs) hd hu = rw (hu first had_decimal) refl
split_number-digits first had_decimal (d ∷ ds) unit hd hu =
    rw
      (
        is_number_char-digit first had_decimal d hd.0,
        split_number-digits false (if d == b'.' then true else had_decimal) ds unit hd.1 hu,
      )
      refl

split_number-whole :
    (first had_decimal : Bool) (ds : Text)
    → IsDigits ds
    → split_number first had_decimal ds ≡ (ds, [])
unfolding split_number
split_number-whole first had_decimal [] hd = refl
split_number-whole first had_decimal (d ∷ ds) hd =
    rw
      (
        is_number_char-digit first had_decimal d hd.0,
        split_number-whole false (if d == b'.' then true else had_decimal) ds hd.1,
      )
      refl

-- Digits with a unit behind them are the digits times the unit's factor, 1 for an unknown unit,
-- and digits alone are what `stoull` reads.
pub parse_units_lem :
    (stoull : Text → Option ℕ) (scale : Text → ℕ → Option ℕ) (units : Units) (ds unit : Text)
    → IsDigits ds
    → IsUnit unit
    → (parse_units stoull scale (ds ++ unit) units ≡ scale ds (multiplier unit units))
      × (parse_units stoull scale ds units ≡ stoull ds)
unfolding parse_units
parse_units_lem stoull scale units ds [] hd hu = absurd hu
parse_units_lem stoull scale units ds (ch ∷ chs) hd hu = (
  ap (convert stoull scale (ds ++ ch ∷ chs) units)
      (split_number-digits true false ds (ch ∷ chs) hd hu),
  ap (convert stoull scale ds units) (split_number-whole true false ds hd),
)
