-- ===== src/Config.antt =====
-- src/Werk/Config/Config.{hpp,cpp}: sources read in the background into one of two maps, and the
-- configurables told of a change. A latch is its Boolean.
pub mod Ini
pub mod Source
pub mod Reload
pub mod Getters
pub mod Scoped
pub mod Scopes
pub mod Written
mod Tests
use werk.Prelude.{ℕ, List, [], ◌∷◌, ◌++◌, Option, none, some, Bool, true, false, if◌then◌else◌}
use werk.Prelude.Keys.{Text, text_eq, lookup}
use Source.{ConfigValues, ConfigSource, reload_source}

-- Entries of the log: of a read, the key, the key it is logged for, the text found or defaulted,
-- and whether it is the default. A number is logged as it is returned.
pub data Event : Type 0 where
  null_config_source null_configurable failed_to_load : Event
  read : Text → Text → Option Text → Bool → Event
  read_bool : Text → Text → Text → Bool → Bool → Event
  read_number : Text → Text → Option Text → Bool → Event

-- A configurable is its name. `values1_active` says which map `_values` points to.
pub record Config : Type 0 where
  pub sources : List ConfigSource
  pub configurables : List ℕ
  pub reload_config : Bool
  pub changed : Bool
  pub values1_active : Bool
  pub values1 : ConfigValues
  pub values2 : ConfigValues
  pub log : List Event

unfoldable pub new_config : Config
new_config = record {
  sources = [];
  configurables = [];
  reload_config = false;
  changed = false;
  values1_active = true;
  values1 = [];
  values2 = [];
  log = [];
}

unfoldable pub emit : Event → Config → Config
emit e c = record c { log = e ∷ c.log }

-- The map that `_values` points to.
unfoldable pub active_values : Config → ConfigValues
active_values c = if c.values1_active then c.values1 else c.values2

unfoldable pub add_config_source : Option ConfigSource → Config → Config
unfolding emit
add_config_source none c = emit null_config_source c
add_config_source (some s) c = record c { sources = c.sources ++ (s ∷ []) }

unfoldable pub clear_config_sources : Config → Config
clear_config_sources c = record c { sources = [] }

unfoldable pub add_configurable : Option ℕ → Config → Config
unfolding emit
add_configurable none c = emit null_configurable c
add_configurable (some k) c = record c { configurables = c.configurables ++ (k ∷ []) }

-- `reloadConfig()`: flags the config to be reloaded in the background.
unfoldable pub request_reload : Config → Config
request_reload c = record c { reload_config = true }

unfoldable pub get_string_raw : Text → Config → Option Text
unfolding active_values
get_string_raw key c = lookup key (active_values c)

-- `swap` stores the new values and the flag; the inactive map is cleared first.
unfoldable pub store_values : ConfigValues → Config → Config
store_values v c =
    if c.values1_active
    then record c { values2 = v; values1_active = false; changed = true }
    else record c { values1 = v; values1_active = true; changed = true }

module _ (trim : Text → Text) where
  -- The loop over the sources: the values, and an entry of the log for each source that fails.
  unfoldable pub load_all :
      List ConfigSource → ConfigValues → List Event → ConfigValues × List Event
  load_all [] values log = (values, log)
  load_all (s ∷ ss) values log =
      let (success, values') = reload_source trim s values in
      load_all ss values' (if success then log else failed_to_load ∷ log)

  -- `Config::execute`, in the background.
  unfoldable pub execute : Config → Config
  unfolding load_all store_values
  execute c =
      if c.reload_config
      then (let (values, log) = load_all c.sources [] c.log in
          store_values values (record c { reload_config = false; log = log }))
      else c

-- The loop over the configurables: which are told, in order, and whether all succeeded. What
-- `Configurable::reloadConfig` returns is a parameter.
unfoldable pub reload_each : (ℕ → Config → Bool) → Config → List ℕ → Bool → Bool × List ℕ
reload_each reload c [] success = (success, [])
reload_each reload c (k ∷ ks) success =
    let (all, told) = reload_each reload c ks (if reload k c then success else false) in
    (all, k ∷ told)

-- `reloadConfigurables`: what it returns, who is told, and the config.
unfoldable pub reload_configurables : (ℕ → Config → Bool) → Config → Bool × List ℕ × Config
unfolding reload_each
reload_configurables reload c =
    if c.changed
    then (let c' = record c { changed = false } in
        let (success, told) = reload_each reload c' c.configurables true in (success, told, c'))
    else (true, [], c)
