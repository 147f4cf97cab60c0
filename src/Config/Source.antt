-- ===== src/Config/Source.antt =====
-- The classes of `ConfigSource`: src/Werk/Config/MapConfigSource.hpp and IniConfigSource.
use werk.Prelude.{◌≡◌, refl, List, [], ◌∷◌, ◌++◌, Option, Bool, true}
use werk.Prelude.Keys.{Text, text_eq, insert}
use werk.Config.Ini.{reload_ini}

abbrev pub ConfigValues : Type 0
ConfigValues = List (Text × Text)

-- An ini source is the file that it will find at its path.
pub data ConfigSource : Type 0 where
  map_source : ConfigValues → ConfigSource
  ini_source : Option Text → ConfigSource

-- `values[i.first] = i.second` for each entry.
unfoldable pub insert_all : ConfigValues → ConfigValues → ConfigValues
insert_all [] values = values
insert_all ((k, v) ∷ m) values = insert_all m (insert k v values)

-- `reloadConfig` of each class.
unfoldable pub reload_source : (Text → Text) → ConfigSource → ConfigValues → Bool × ConfigValues
unfolding insert_all reload_ini
reload_source trim (map_source m) values = (true, insert_all m values)
reload_source trim (ini_source file) values = reload_ini trim file values

pub insert_all-append :
    (es fs values : ConfigValues)
    → insert_all (es ++ fs) values ≡ insert_all fs (insert_all es values)
unfolding insert_all
insert_all-append [] fs values = refl
insert_all-append ((k, v) ∷ es) fs values = insert_all-append es fs (insert k v values)
