-- ===== src/Context/Bootstrap.antt =====
-- How the constructor of Context loads the configuration: the primary and the secondary file first,
-- and then, with the files that these name, all of them.
use werk.Prelude.{Option, none, some, List, [], ◌∷◌, ◌++◌, map}
use werk.Prelude.Keys.{Text}
use werk.Context.{config_paths_key}
use werk.Config.{
  Config, add_config_source, clear_config_sources, add_configurable, request_reload, execute,
  new_config,
}
use werk.Config.Source.{ConfigSource, ini_source}
use werk.Config.Getters.{Conversions, get_strings}

-- `files` is what stands at a path. The secondary path may be missing.
module _ {Double : Type 0} (trim : Text → Text) (lib : Conversions Double)
    (files : Text → Option Text) where
  abbrev pub ini_at : Text → ConfigSource
  ini_at path = ini_source (files path)

  abbrev pub optional_sources : Option Text → List ConfigSource
  optional_sources none = []
  optional_sources (some path) = ini_at path ∷ []

  unfoldable pub add_sources : List ConfigSource → Config → Config
  unfolding add_config_source
  add_sources [] c = c
  add_sources (s ∷ ss) c = add_sources ss (add_config_source (some s) c)

  unfoldable pub reload_now : Config → Config
  unfolding request_reload execute
  reload_now c = execute trim (request_reload c)

  -- The first load, and the paths that it names.
  unfoldable pub load_primary : Text → Option Text → Config → Config
  unfolding add_sources reload_now
  load_primary primary secondary c =
      reload_now (add_sources (ini_at primary ∷ optional_sources secondary) c)

  unfoldable pub load_all_paths : Text → Option Text → List Text → Config → Config
  unfolding add_sources reload_now clear_config_sources
  load_all_paths primary secondary paths c = reload_now (
      add_sources (map ini_at paths ++ (ini_at primary ∷ optional_sources secondary))
        (clear_config_sources (add_sources (map ini_at paths) c)))

  -- The configuration that the constructor makes; the context is the configurable 0.
  unfoldable pub load_config : Text → Option Text → Config
  unfolding load_primary load_all_paths add_configurable get_strings new_config
  load_config primary secondary =
      let c = load_primary primary secondary (add_configurable (some 0) new_config) in
      let (value, paths, c') = get_strings lib config_paths_key [] none (b',' ∷ []) none c in
      load_all_paths primary secondary paths c'
