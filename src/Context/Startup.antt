-- ===== src/Context/Startup.antt =====
-- The commands that the constructor of Context registers, the aliases of the configuration, and the
-- commands that it runs at the startup.
use werk.Prelude.{ℕ, Bool, true, false, Option, none, some, List, [], ◌∷◌, ◌==◌}
use werk.Prelude.Keys.{Text}
use werk.Context.{command_aliases_key, startup_commands_key}
use werk.Config.{Config}
use werk.Config.Getters.{Conversions, get_string, get_strings, split_into}
use werk.Commands.{Tools, Command, Manager, add, new_alias}
use werk.Context.Loop.{run_commands}

abbrev pub write_profiles_name : Text
write_profiles_name =
    b'w' ∷ b'r' ∷ b'i' ∷ b't' ∷ b'e' ∷ b'P' ∷ b'r' ∷ b'o' ∷ b'f' ∷ b'i' ∷ b'l' ∷ b'e' ∷ b's' ∷ []

abbrev pub app_name : Text
app_name = b'a' ∷ b'p' ∷ b'p' ∷ []

abbrev pub background_name : Text
background_name = b'b' ∷ b'g' ∷ []

abbrev pub logs_name : Text
logs_name = b'l' ∷ b'o' ∷ b'g' ∷ b's' ∷ []

abbrev pub reload_name : Text
reload_name = b'r' ∷ b'e' ∷ b'l' ∷ b'o' ∷ b'a' ∷ b'd' ∷ []

abbrev pub quit_name : Text
quit_name = b'q' ∷ b'u' ∷ b'i' ∷ b't' ∷ []

abbrev pub segfault_name : Text
segfault_name = b's' ∷ b'e' ∷ b'g' ∷ b'f' ∷ b'a' ∷ b'u' ∷ b'l' ∷ b't' ∷ []

abbrev pub consoles_name : Text
consoles_name = b'c' ∷ b'o' ∷ b'n' ∷ b's' ∷ b'o' ∷ b'l' ∷ b'e' ∷ b's' ∷ []

-- Actions are numbers, behind those of the manager.
abbrev pub log_context : ℕ
log_context = 2

abbrev pub log_background_tasks : ℕ
log_background_tasks = 3

abbrev pub log_logs : ℕ
log_logs = 4

abbrev pub reload_config_action : ℕ
reload_config_action = 5

abbrev pub quit_action : ℕ
quit_action = 6

abbrev pub write_profiles_action : ℕ
write_profiles_action = 7

abbrev pub segfault_command : ℕ
segfault_command = 0

abbrev pub consoles_command : ℕ
consoles_command = 1

-- A command that is registered under a condition.
unfoldable pub add_if : Bool → Text → Command → Manager → Manager
unfolding add
add_if true name c m = add name (some c) m
add_if false name c m = m

unfoldable pub register : Bool → Bool → Manager → Manager
unfolding add_if
register profiles simulation m = add_if simulation segfault_name (Command.custom segfault_command) (
    add quit_name (some (Command.action quit_action)) (
      add reload_name (some (Command.action reload_config_action)) (
        add logs_name (some (Command.action log_logs)) (
          add background_name (some (Command.action log_background_tasks)) (
            add app_name (some (Command.action log_context))
              (add_if profiles write_profiles_name (Command.action write_profiles_action) m))))))

-- What `find(':')` splits an alias into.
unfoldable pub split_colon : Text → Option (Text × Text)
split_colon [] = none
split_colon (c ∷ cs) = elim (c == b':') [
  | true ↦ some ([], cs)
  | false ↦ elim (split_colon cs) [ none ↦ none | some (k, v) ↦ some (c ∷ k, v) ]
]

module _ (tools : Tools) where
  unfoldable pub add_alias : Option (Text × Text) → Manager → Manager
  unfolding add new_alias
  add_alias none m = m
  add_alias (some (name, command)) m = add name (some (new_alias tools command)) m

  -- The loop over the aliases: the manager, and those that could not be parsed.
  unfoldable pub add_aliases : List Text → Manager → Manager × List Text
  unfolding add_alias split_colon
  add_aliases [] m = (m, [])
  add_aliases (a ∷ as') m =
      let (m', bad) = add_aliases as' (add_alias (split_colon a) m) in
      (m', elim (split_colon a) [ none ↦ a ∷ bad | some p ↦ bad ])

module _ {Double : Type 0} (lib : Conversions Double) (tools : Tools) (fuel time : ℕ) where
  -- The manager with all commands of the constructor; and the config, which has logged what was
  -- read. The consoles command comes last, where there is a console.
  unfoldable pub set_up_commands : Bool → Bool → Bool → Config → Manager → Manager × Config
  unfolding register add_aliases add_if get_strings
  set_up_commands profiles simulation consoles c m =
      let (value, aliases, c') = get_strings lib command_aliases_key [] none (b';' ∷ []) none c in
      (
        add_if consoles consoles_name (Command.custom consoles_command)
            (add_aliases tools aliases (register profiles simulation m)).0,
        c',
      )

  -- And what the startup commands leave of it.
  unfoldable pub start_up : Bool → Bool → Bool → Config → Manager → Option Manager
  unfolding set_up_commands run_commands get_string
  start_up profiles simulation consoles c m =
      let (m', c') = set_up_commands profiles simulation consoles c m in
      let (value, c'') = get_string startup_commands_key none none c' in
      run_commands lib tools fuel time (split_into lib (b';' ∷ []) value []) m'
