-- ===== src/Config/Tests.antt =====
-- The theorems of the config at a map, an ini file and scopes.
use werk.Prelude.{
  ℕ, List, [], ◌∷◌, none, some, Bool, true, false, ◌≡◌, refl, ◌-◌, ◌==◌, if◌then◌else◌,
}
use werk.Prelude.Keys.{Text, text_eq, lookup, insert}
use werk.Config.{
  Config, new_config, active_values, get_string_raw, execute, reload_configurables, Event,
  failed_to_load,
}
use werk.Config.Ini.{reload_ini}
use werk.Config.Source.{ConfigSource, map_source, ini_source, insert_all}
use werk.Config.Getters.{Conversions, or_default}
use werk.Config.Scoped.{scoped_string, scoped_uint64, scoped_storage_amount, scoped_time_amount}
use werk.Config.Reload.{execute_lem, inactive_values, last_value, all_entries}
use werk.Config.Scopes.{scoped_values, result}
use werk.Config.Written.{reload_ini-written, written, Section}

-- Text that has no blanks to trim.
abbrev trim : Text → Text
trim s = s

abbrev key_a : Text
key_a = b'a' ∷ []

abbrev key_b : Text
key_b = b'b' ∷ []

abbrev one : Text
one = b'1' ∷ []

abbrev two : Text
two = b'2' ∷ []

-- `a=1` and a line without `=`.
abbrev bad_file : Text
bad_file = b'a' ∷ b'=' ∷ b'1' ∷ 10 ∷ b'x' ∷ 10 ∷ b'b' ∷ b'=' ∷ b'1' ∷ []

abbrev sources : List ConfigSource
sources = map_source ((key_a, two) ∷ (key_b, two) ∷ []) ∷ ini_source (some bad_file) ∷ []

abbrev flagged : Config
flagged = record {
  sources = sources;
  configurables = 1 ∷ 2 ∷ 3 ∷ [];
  reload_config = true;
  changed = false;
  values1_active = true;
  values1 = (key_a, key_b) ∷ [];
  values2 = (key_b, key_b) ∷ [];
  log = [];
}

execute_lem_example :
    ((key : Text)
      → get_string_raw key (execute trim flagged) ≡ last_value key (all_entries trim sources))
    × (inactive_values (execute trim flagged) ≡ (key_a, key_b) ∷ [])
    × ((execute trim flagged).log ≡ failed_to_load ∷ [])
    × ((execute trim flagged).changed ≡ true)
    × ((execute trim flagged).reload_config ≡ false)
unfolding werk.Config.Ini.lines_of werk.Config.Ini.classify active_values
    werk.Config.Ini.split_equal
execute_lem_example = execute_lem trim flagged refl

abbrev reload : ℕ → Config → Bool
reload k c = if k == 2 then false else true

abbrev changed : Config
changed = record flagged { changed = true }

abbrev sections : List Section
sections = ([], (key_a, one) ∷ []) ∷ (key_b, (key_a, two) ∷ []) ∷ []

reload_ini-written_example :
    reload_ini trim (some (written sections)) []
    ≡ (true, (key_a, one) ∷ (b'b' ∷ b'.' ∷ b'a' ∷ [], two) ∷ [])
unfolding insert_all insert
reload_ini-written_example = reload_ini-written trim sections [] (
  (tt, (((refl, refl, refl), (refl, tt), (refl, tt), (refl, tt), refl), tt)),
  (((refl, tt), (((refl, refl, refl), (refl, tt), (refl, tt), (refl, tt), refl), tt)), tt),
)

abbrev lib : Conversions ℕ
lib = record {
  stod = λ s. none;
  stoll = λ s. none;
  stoull = λ s. elim s [ [] ↦ none | d ∷ ds ↦ some (d - b'0') ];
  scale = λ s m. none;
  split = λ s d. s ∷ [];
}

-- The second scope has a value; the first has none, and neither would the key itself be read.
abbrev scoped : Config
scoped = record new_config {
  values1 = (b'x' ∷ b'.' ∷ b'a' ∷ [], one) ∷ (b'y' ∷ b'.' ∷ b'b' ∷ [], one) ∷ (key_a, two) ∷ [];
}

abbrev scopes : List Text
scopes = (b'y' ∷ b'.' ∷ []) ∷ (b'x' ∷ b'.' ∷ []) ∷ []

scoped_values_example :
    ((scoped_string scopes key_a none scoped).0 ≡ some one)
    × (result (scoped_uint64 lib scopes key_a 7 scoped) ≡ some 1)
    × (result (scoped_storage_amount lib scopes key_a 7 scoped) ≡ some 1)
    × (result (scoped_time_amount lib scopes key_a 7 scoped) ≡ some 1)
unfolding new_config active_values get_string_raw lookup or_default werk.Units.parse_units
scoped_values_example = scoped_values lib scopes key_a none 7 scoped
