-- ===== src/Commands/Defaults.antt =====
-- The commands that a new manager has, in src/Werk/Commands/CommandManager.hpp.
use werk.Prelude.{ℕ, [], ◌∷◌, some}
use werk.Prelude.Keys.{Text}
use werk.Commands.{Command, LogLevel, Manager, add, redo_name}

abbrev pub null_name : Text
null_name = b'n' ∷ b'u' ∷ b'l' ∷ b'l' ∷ []

abbrev pub question_mark : Text
question_mark = b'?' ∷ []

abbrev pub help_name : Text
help_name = b'h' ∷ b'e' ∷ b'l' ∷ b'p' ∷ []

abbrev pub echo_name : Text
echo_name = b'e' ∷ b'c' ∷ b'h' ∷ b'o' ∷ []

abbrev pub error_name : Text
error_name = b'e' ∷ b'r' ∷ b'r' ∷ b'o' ∷ b'r' ∷ []

abbrev pub warning_name : Text
warning_name = b'w' ∷ b'a' ∷ b'r' ∷ b'n' ∷ b'i' ∷ b'n' ∷ b'g' ∷ []

abbrev pub version_name : Text
version_name = b'v' ∷ b'e' ∷ b'r' ∷ b's' ∷ b'i' ∷ b'o' ∷ b'n' ∷ []

-- Actions are numbers.
abbrev pub log_help : ℕ
log_help = 0

abbrev pub log_version : ℕ
log_version = 1

-- The constructor, with its default commands.
unfoldable pub new_manager : Manager
unfolding add
new_manager = add version_name (some (Command.action log_version)) (
    add warning_name (some (Command.echo LogLevel.warning)) (
      add error_name (some (Command.echo LogLevel.error)) (
        add echo_name (some (Command.echo LogLevel.info)) (
          add redo_name (some Command.redo) (
            add question_mark (some (Command.action log_help)) (
              add help_name (some (Command.action log_help)) (
                add null_name (some Command.null)
                  (record { commands = []; history = []; events = [] }))))))))
