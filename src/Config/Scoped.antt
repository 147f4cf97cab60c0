-- ===== src/Config/Scoped.antt =====
-- src/Werk/Config/ScopedConfig.{hpp,cpp}: keys read through a number of scopes, the most specific
-- one first.
use werk.Prelude.{ℕ, List, [], ◌∷◌, ◌++◌, Option, none, some, Bool}
use werk.Prelude.Int.{ℤ}
use werk.Prelude.Keys.{Text}
use werk.Config.{Config, get_string_raw}
use werk.Config.Getters.{
  Conversions, get_string, get_bool, get_double, get_int64, get_uint64, get_storage_amount,
  get_time_amount, get_strings,
}

-- `_scopes`; the config is passed along.
abbrev pub ScopedConfig : Type 0
ScopedConfig = List Text

-- The loop of `findScopedKey`, from some scope on: the first qualified key that has a value.
unfoldable pub find_in_scopes : List Text → Text → Config → Option Text
unfolding get_string_raw
find_in_scopes [] key c = none
find_in_scopes (scope ∷ scopes) key c = elim (get_string_raw (scope ++ key) c) [
  | some value ↦ some (scope ++ key)
  | none ↦ find_in_scopes scopes key c
]

-- The key found, or the most specific key.
abbrev pub or_specific : Text → Option Text → Text × Text
or_specific specific (some found) = (specific, found)
or_specific specific none = (specific, specific)

-- `findScopedKey`: the specific key, which stays empty without scopes, and the key found.
unfoldable pub find_scoped_key : ScopedConfig → Text → Config → Text × Text
unfolding find_in_scopes
find_scoped_key [] key c = ([], key)
find_scoped_key (scope ∷ scopes) key c =
    or_specific (scope ++ key) (find_in_scopes (scope ∷ scopes) key c)

unfoldable pub scoped_string : ScopedConfig → Text → Option Text → Config → Option Text × Config
unfolding find_scoped_key get_string
scoped_string s key default c =
    let (specific, found) = find_scoped_key s key c in get_string found default (some specific) c

unfoldable pub scoped_bool : ScopedConfig → Text → Bool → Config → Bool × Config
unfolding find_scoped_key get_bool
scoped_bool s key default c =
    let (specific, found) = find_scoped_key s key c in get_bool found default (some specific) c

module _ {Double : Type 0} (lib : Conversions Double) where
  unfoldable pub scoped_double : ScopedConfig → Text → Double → Config → Option (Double × Config)
  unfolding find_scoped_key get_double
  scoped_double s key default c =
      let (specific, found) = find_scoped_key s key c in
      get_double lib found default (some specific) c

  unfoldable pub scoped_int64 : ScopedConfig → Text → ℤ → Config → Option (ℤ × Config)
  unfolding find_scoped_key get_int64
  scoped_int64 s key default c =
      let (specific, found) = find_scoped_key s key c in
      get_int64 lib found default (some specific) c

  unfoldable pub scoped_uint64 : ScopedConfig → Text → ℕ → Config → Option (ℕ × Config)
  unfolding find_scoped_key get_uint64
  scoped_uint64 s key default c =
      let (specific, found) = find_scoped_key s key c in
      get_uint64 lib found default (some specific) c

  unfoldable pub scoped_storage_amount : ScopedConfig → Text → ℕ → Config → Option (ℕ × Config)
  unfolding find_scoped_key get_storage_amount
  scoped_storage_amount s key default c =
      let (specific, found) = find_scoped_key s key c in
      get_storage_amount lib found default (some specific) c

  unfoldable pub scoped_time_amount : ScopedConfig → Text → ℕ → Config → Option (ℕ × Config)
  unfolding find_scoped_key get_time_amount
  scoped_time_amount s key default c =
      let (specific, found) = find_scoped_key s key c in
      get_time_amount lib found default (some specific) c

  unfoldable pub scoped_strings :
      ScopedConfig
      → Text
      → List Text
      → Option Text
      → Text
      → Config
      → Option Text × List Text × Config
  unfolding find_scoped_key get_strings
  scoped_strings s key values default delimiters c =
      let (specific, found) = find_scoped_key s key c in
      get_strings lib found values default delimiters (some specific) c
