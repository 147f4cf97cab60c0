-- ===== src/Commands.antt =====
-- src/Werk/Commands: the command manager with its history, the built-in commands, aliases and redo.
-- Times come from the manager's clock, an argument. Commands of the application are `custom`: their
-- results are a parameter, and they do not call the manager.
pub mod Dispatch
pub mod Redo
pub mod History
mod Aliases
pub mod Defaults
mod Tests
use werk.Prelude.{ℕ, zero, suc, List, [], ◌∷◌, ◌++◌, Option, none, some, Bool, true, false}
use werk.Prelude.Keys.{Text, text_beq, text_eq, lookup, insert}

-- boost's `trim_copy`, `split` on blanks with and without compression, and `join` by blanks, and the
-- commands that the application defines. `stale` is what a reference to a line of the history reads
-- once a line was added to that history: the vector may have moved its lines, and then the source
-- reads memory that is no longer its own, here any text.
pub record Tools : Type 0 where
  pub trim : Text → Text
  pub split : Text → List Text
  pub split_plain : Text → List Text
  pub join : List Text → Text
  pub custom : ℕ → List Text → Bool
  pub stale : List (ℕ × Text) → Text → Text

pub data LogLevel : Type 0 where
  critical error warning alert success config info detail json trace : LogLevel

-- `command_action` is an `ActionCommand` over a `CommandAction`, which runs a command with arguments of
-- its own; the other actions, such as `LogAction`s, are names, and do not call the manager.
pub data Command : Type 0 where
  null redo : Command
  action custom : ℕ → Command
  echo : LogLevel → Command
  alias : List Text → Command
  command_action : Command → List Text → Command

-- What a command shows to the outside: log entries and actions run.
pub data Event : Type 0 where
  received not_found not_found_for_action null_command : Text → Event
  no_arguments : Event
  echoed : LogLevel → Text → Event
  ran : ℕ → Event
  ran_custom : ℕ → List Text → Event

-- The history and the events are newest first: the back of the vector is the head.
pub record Manager : Type 0 where
  pub commands : List (Text × Command)
  pub history : List (ℕ × Text)
  pub events : List Event

-- `execute` is overloaded in the source. `redone` is a line that is a reference into the history.
pub data Call : Type 0 where
  line redone : Text → Call
  arguments : List Text → Call

unfoldable pub emit : Event → Manager → Manager
emit e m = record m { events = e ∷ m.events }

-- "redo"
abbrev pub redo_name : Text
redo_name = b'r' ∷ b'e' ∷ b'd' ∷ b'o' ∷ []

-- The line before the last one: `commandHistory()[size - 2]`, if there are two.
unfoldable pub previous : List (ℕ × Text) → Option Text
previous [] = none
previous (x ∷ []) = none
previous (x ∷ (t, l) ∷ h) = some l

-- `arguments[0]`; a split is never empty.
abbrev pub first : List Text → Text
first [] = []
first (a ∷ as') = a

abbrev pub rest : List Text → List Text
rest [] = []
rest (a ∷ as') = as'

abbrev pub Outcome : Type 0
Outcome = Option (Bool × Manager)

-- `add`, with a null pointer as `none`.
unfoldable pub add : Text → Option Command → Manager → Manager
unfolding emit
add name none m = emit (null_command name) m
add name (some c) m = record m { commands = insert name c m.commands }

-- `ActionCommand::execute` succeeds, whatever its action does.
abbrev pub succeeded : Outcome → Outcome
succeeded none = none
succeeded (some (r, m)) = some (true, m)

module _ (tools : Tools) where
  -- `CommandAlias`'s constructor.
  unfoldable pub new_alias : Text → Command
  new_alias command = alias (tools.split (tools.trim command))

  unfoldable pub redo_execute : (Call → Manager → Outcome) → Manager → Outcome
  unfolding previous
  redo_execute execute m = elim (previous m.history) [
    | none ↦ some (false, m)
    | some p ↦ elim (text_beq p redo_name) [ true ↦ some (false, m) | false ↦ execute (redone p) m ]
  ]

  -- `Command::execute` of each class; `execute` is that of the manager.
  unfoldable pub command_execute :
      (Call → Manager → Outcome) → Command → List Text → Manager → Outcome
  unfolding emit redo_execute
  command_execute execute null args m = some (true, m)
  command_execute execute redo args m = redo_execute execute m
  command_execute execute (action a) args m = some (true, emit (ran a) m)
  command_execute execute (custom c) args m = some (tools.custom c args, emit (ran_custom c args) m)
  command_execute execute (echo level) args m =
      some (true, emit (echoed level (tools.join (rest args))) m)
  command_execute execute (alias command) args m = execute (arguments (command ++ args)) m
  command_execute execute (command_action c as') args m =
      succeeded (command_execute execute c as' m)

  -- What `execute` does with a line before it parses it.
  unfoldable pub receive : ℕ → Text → Manager → Manager
  unfolding emit
  receive time l m = emit (received l) (record m { history = (time, l) ∷ m.history })

  -- The same for a line of the history: it is added as it was, and logged as the reference reads then.
  unfoldable pub receive_redone : ℕ → Text → Manager → Manager
  unfolding emit
  receive_redone time l m =
      emit (received (tools.stale m.history l)) (record m { history = (time, l) ∷ m.history })

  -- `CommandManager::execute`, with fuel for the calls that commands make; `none` means that the fuel
  -- ran out.
  unfoldable pub execute : ℕ → ℕ → Call → Manager → Outcome
  unfolding emit receive receive_redone command_execute
  execute zero time call m = none
  execute (suc fuel) time (line l) m = elim (text_beq (first (tools.split (tools.trim l))) []) [
    | true ↦ some (false, receive time l m)
    | false ↦ execute fuel time (arguments (tools.split (tools.trim l))) (receive time l m)
  ]
  execute (suc fuel) time (redone l) m =
      let words = tools.split (tools.trim (tools.stale m.history l)) in
      elim (text_beq (first words) []) [
        | true ↦ some (false, receive_redone time l m)
        | false ↦ execute fuel time (arguments words) (receive_redone time l m)
      ]
  execute (suc fuel) time (arguments []) m = some (false, emit no_arguments m)
  execute (suc fuel) time (arguments (name ∷ args)) m = elim (lookup name m.commands) [
    | none ↦ some (false, emit (not_found name) m)
    | some c ↦ command_execute (execute fuel time) c (name ∷ args) m
  ]

  -- `newCommandAction`: the command and its arguments, or a null pointer.
  unfoldable pub new_command_action : Text → Manager → Option (Command × List Text) × Manager
  unfolding emit
  new_command_action l m = elim (lookup (first (tools.split_plain l)) m.commands) [
    | none ↦ (none, emit (not_found_for_action (first (tools.split_plain l))) m)
    | some c ↦ (some (c, tools.split_plain l), m)
  ]
