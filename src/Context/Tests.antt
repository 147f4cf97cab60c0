-- ===== src/Context/Tests.antt =====
-- The theorems of the context at small files.
use werk.Prelude.{
  ℕ, ◌≡◌, refl, true, false, Option, none, some, List, [], ◌∷◌, ◌++◌, ◌==◌, if◌then◌else◌,
}
use werk.Prelude.Keys.{Text, text_eq, lookup, insert}
use werk.Context.{config_paths_key}
use werk.Context.Bootstrap.{load_config}
use werk.Context.Precedence.{load_config_lem}
use werk.Config.{new_config, reload_configurables, get_string_raw, Config}
use werk.Prelude.Int.{pos, negsuc}
use werk.Commands.{
  execute, receive, arguments, not_found, received, ran, Tools, Command, Manager, LogLevel, line,
}
use werk.Context.{shutdown_commands_key, command_aliases_key, startup_commands_key}
use werk.Context.Loop.{
  tell_context, destroy, level_of, Round, App, main_action, loop_entered, loop_exited,
  actions_started, actions_complete, shutting_down, shutdown_action, long_update, run, run_commands,
}
use werk.Commands.Defaults.{new_manager}
use werk.Context.Startup.{register, split_colon, start_up}
use werk.Context.Quitting.{start_up-aliases}
use werk.Context.Run.{run_lem, ended}
use werk.Config.Ini.{lines_of, classify, split_equal}
use werk.Config.Getters.{Conversions, get_string}

abbrev trim : Text → Text
trim s = s

-- Values are split at each comma.
abbrev split_commas : Text → List Text
split_commas [] = [] ∷ []
split_commas (b ∷ bs) =
    if b == b','
    then [] ∷ split_commas bs
    else elim (split_commas bs) [ [] ↦ (b ∷ []) ∷ [] | v ∷ vs ↦ (b ∷ v) ∷ vs ]

abbrev lib : Conversions ℕ
lib = record {
  stod = λ s. none;
  stoll = λ s. none;
  stoull = λ s. none;
  scale = λ s m. none;
  split = λ s d. split_commas s;
}

-- `p` names `a` and `b`, and has `x=1`; `s` has `y=2`; `a` and `b` have `x`, `y` and `z`.
abbrev primary_file : Text
primary_file =
    config_paths_key
    ++ (b'=' ∷ b'a' ∷ b',' ∷ b'b' ∷ 10 ∷ b'x' ∷ b'=' ∷ b'1' ∷ 10 ∷ b'y' ∷ b'=' ∷ b'1' ∷ 10 ∷ [])

abbrev file_of : ℕ → Text
file_of n = b'x' ∷ b'=' ∷ n ∷ 10 ∷ b'y' ∷ b'=' ∷ n ∷ 10 ∷ b'z' ∷ b'=' ∷ n ∷ 10 ∷ []

abbrev files : Text → Option Text
files [] = none
files (b ∷ bs) =
    if b == b'p'
    then some primary_file
    else if b == b's'
    then some (b'y' ∷ b'=' ∷ b'2' ∷ 10 ∷ [])
    else some (file_of b)

abbrev value_of : ℕ → Option Text
value_of k = get_string_raw (k ∷ []) (load_config trim lib files (b'p' ∷ []) (some (b's' ∷ [])))

-- The primary file wins over what it names.
load_config_lem_example : value_of b'x' ≡ some (b'1' ∷ [])
unfolding lines_of classify split_equal
load_config_lem_example = load_config_lem trim lib files (b'p' ∷ []) (some (b's' ∷ [])) (b'x' ∷ [])

-- The secondary file wins over the primary one, and the last file that is named over the others.
secondary_wins : value_of b'y' ≡ some (b'2' ∷ [])
unfolding lines_of classify split_equal
secondary_wins = load_config_lem trim lib files (b'p' ∷ []) (some (b's' ∷ [])) (b'y' ∷ [])

last_named_wins : value_of b'z' ≡ some (b'b' ∷ [])
unfolding lines_of classify split_equal
last_named_wins = load_config_lem trim lib files (b'p' ∷ []) (some (b's' ∷ [])) (b'z' ∷ [])

abbrev tools : Tools
tools = record {
  trim = λ s. s;
  split = λ s. s ∷ [];
  split_plain = λ s. s ∷ [];
  join = λ ts. [];
  custom = λ n ts. true;
  stale = λ h l. l;
}

-- Two commands at the shutdown, of which the manager does not know the second; and two configurables
-- that have not been told yet.
abbrev idle : App
idle = record {
  config = record new_config {
    configurables = 0 ∷ 7 ∷ [];
    changed = true;
    values1 = (shutdown_commands_key, b'a' ∷ b',' ∷ b'z' ∷ []) ∷ [];
  };
  manager = record { commands = (b'a' ∷ [], Command.action 9) ∷ []; history = []; events = [] };
  shutdown_actions = 4 ∷ 5 ∷ [];
  thresholds = record { alert = 1; warning = 1; error = 1; critical = 1 };
  quitting = false;
  stopped = false;
  update_id = 0;
  exit_code = pos 0;
  trace = [];
}

abbrev quick : Round
quick = record { quits = false; sets_exit = none; update_time = pos 10 }

-- The clock went back during the update, which then counts as a long one.
abbrev last_round : Round
last_round = record { quits = true; sets_exit = some (pos 3); update_time = negsuc 0 }

abbrev or_idle : Option App → App
or_idle none = idle
or_idle (some s) = s

abbrev or_empty : Option Manager → Manager
or_empty none = idle.manager
or_empty (some m) = m

-- The configurables are told, and the context has read its thresholds.
unfoldable reloaded : App
unfolding tell_context
reloaded = or_idle (
    tell_context lib tools 3 8 (0 ∷ 7 ∷ [])
      (record idle { config = record idle.config { changed = false } }))

unfoldable commanded : Manager
unfolding run_commands
commanded = or_empty (run_commands lib tools 3 8 ((b'a' ∷ []) ∷ (b'z' ∷ []) ∷ []) idle.manager)

commanded_test :
    commanded.events
    ≡ not_found (b'z' ∷ []) ∷ received (b'z' ∷ []) ∷ ran 9 ∷ received (b'a' ∷ []) ∷ []
unfolding commanded lookup
commanded_test = refl

ended_test :
    (ended lib tools 3 8 (quick ∷ last_round ∷ []) commanded reloaded).trace
    ≡ loop_entered
      ∷ main_action 1
      ∷ main_action 2
      ∷ long_update LogLevel.critical (negsuc 0)
      ∷ loop_exited 2
      ∷ actions_started
      ∷ shutdown_action 4
      ∷ shutdown_action 5
      ∷ actions_complete
      ∷ shutting_down
      ∷ []
unfolding reloaded commanded level_of lookup new_config
ended_test = refl

run_lem_example :
    (run lib tools 3 8 (λ k c. true) (quick ∷ last_round ∷ quick ∷ []) idle
      ≡ some (pos 3, ended lib tools 3 8 (quick ∷ last_round ∷ []) commanded reloaded))
    × (destroy lib tools 3 8 (ended lib tools 3 8 (quick ∷ last_round ∷ []) commanded reloaded)
        ≡ some (ended lib tools 3 8 (quick ∷ last_round ∷ []) commanded reloaded))
unfolding reloaded commanded reload_configurables get_string lookup new_config
run_lem_example =
    run_lem lib tools 3 8 (λ k c. true) (quick ∷ []) last_round (quick ∷ []) idle reloaded
      (0 ∷ 7 ∷ []) (record idle.config { changed = false }) commanded refl refl refl refl (refl, tt)
      refl refl

-- Aliases `q:quit` and `x`, which has no colon, and a startup command; each text is one word.
abbrev configured : Config
configured = record new_config {
  values1 =
      (command_aliases_key, b'q' ∷ b':' ∷ b'e' ∷ b',' ∷ b'x' ∷ [])
      ∷ (startup_commands_key, b'q' ∷ [])
      ∷ [];
}

unfoldable started : Manager
unfolding start_up
started = or_empty (start_up lib tools 4 8 true false true configured new_manager)

-- The alias is not known as a command: its word `e` is run with its own name behind it.
start_up-aliases_example :
    execute tools 3 8 (line (b'q' ∷ [])) started
    ≡ execute tools 1 8
        (arguments ((b'e' ∷ []) ∷ (b'q' ∷ []) ∷ []))
        (receive tools 8 (b'q' ∷ []) started)
unfolding started new_manager lookup register split_colon new_config insert
start_up-aliases_example =
    start_up-aliases lib tools 4 8 true false true configured new_manager started started []
      (b'q' ∷ []) (b'q' ∷ []) [] ((b'e' ∷ []) ∷ []) 1 refl refl refl (λ e. cc) (λ e. cc) refl
