-- ===== src/Config/Getters.antt =====
-- The typed accessors of src/Werk/Config/Config.cpp. The help text, which is only logged, is left
-- out. `specific` is the key that the log names.
use werk.Prelude.{ℕ, List, [], ◌∷◌, Option, none, some, Bool, true, false}
use werk.Prelude.Int.{ℤ}
use werk.Prelude.Keys.{Text}
use werk.Units.{parse_bool, parse_units, storage_units, time_units}
use werk.Config.{Config, emit, get_string_raw, read, read_bool, read_number}

unfoldable pub for_key : Text → Option Text → Text
for_key key none = key
for_key key (some specific) = specific

-- The text found, or the default; and whether it is the default.
unfoldable pub or_default : Option Text → Option Text → Option Text × Bool
or_default (some value) default = (some value, false)
or_default none default = (default, true)

unfoldable pub get_string : Text → Option Text → Option Text → Config → Option Text × Config
unfolding get_string_raw or_default for_key emit
get_string key default specific c =
    let (value, is_default) = or_default (get_string_raw key c) default in
    (value, emit (read key (for_key key specific) value is_default) c)

abbrev pub bool_text : Bool → Text
bool_text true = b't' ∷ b'r' ∷ b'u' ∷ b'e' ∷ []
bool_text false = b'f' ∷ b'a' ∷ b'l' ∷ b's' ∷ b'e' ∷ []

unfoldable pub get_bool : Text → Bool → Option Text → Config → Bool × Config
unfolding get_string_raw parse_bool for_key emit
get_bool key default specific c = elim (get_string_raw key c) [
  | none ↦ (default, emit (read_bool key (for_key key specific) (bool_text default) default true) c)
  | some s ↦ (parse_bool s, emit (read_bool key (for_key key specific) s (parse_bool s) false) c)
]

-- What the number accessors share. `none` is a conversion that throws, with nothing logged.
unfoldable pub get_number :
    {A : Type 0} → (Text → Option A) → Text → A → Option Text → Config → Option (A × Config)
unfolding get_string_raw for_key emit
get_number parse key default specific c = elim (get_string_raw key c) [
  | none ↦ some (default, emit (read_number key (for_key key specific) none true) c)
  | some s ↦ elim (parse s) [
    | none ↦ none
    | some value ↦ some (value, emit (read_number key (for_key key specific) (some s) false) c)
  ]
]

-- The standard library's conversions: `stod`, `stoll`, `stoull`, the product of a `double` with a
-- multiplier, and `boost::split`.
pub record Conversions (Double : Type 0) : Type 0 where
  pub stod : Text → Option Double
  pub stoll : Text → Option ℤ
  pub stoull : Text → Option ℕ
  pub scale : Text → ℕ → Option ℕ
  pub split : Text → Text → List Text

module _ {Double : Type 0} (lib : Conversions Double) where
  unfoldable pub get_double : Text → Double → Option Text → Config → Option (Double × Config)
  unfolding get_number
  get_double = get_number lib.stod

  unfoldable pub get_int64 : Text → ℤ → Option Text → Config → Option (ℤ × Config)
  unfolding get_number
  get_int64 = get_number lib.stoll

  unfoldable pub get_uint64 : Text → ℕ → Option Text → Config → Option (ℕ × Config)
  unfolding get_number
  get_uint64 = get_number lib.stoull

  unfoldable pub get_storage_amount : Text → ℕ → Option Text → Config → Option (ℕ × Config)
  unfolding get_number parse_units
  get_storage_amount = get_number (λ s. parse_units lib.stoull lib.scale s storage_units)

  unfoldable pub get_time_amount : Text → ℕ → Option Text → Config → Option (ℕ × Config)
  unfolding get_number parse_units
  get_time_amount = get_number (λ s. parse_units lib.stoull lib.scale s time_units)

  -- The list that is passed in is left alone when there is no text.
  abbrev pub split_into : Text → Option Text → List Text → List Text
  split_into delimiters none values = values
  split_into delimiters (some s) values = lib.split s delimiters

  unfoldable pub get_strings :
      Text
      → List Text
      → Option Text
      → Text
      → Option Text
      → Config
      → Option Text × List Text × Config
  unfolding get_string
  get_strings key values default delimiters specific c =
      let (value, c') = get_string key default specific c in
      (value, split_into delimiters value values, c')
