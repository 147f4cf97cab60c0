-- ===== src/Commands/Dispatch.antt =====
-- The paths of `CommandManager::execute` up to a command.
use werk.Prelude.{ℕ, suc, ◌≡◌, ◌≢◌, List, [], ◌∷◌, none, some, false, arith}
use werk.Prelude.Keys.{Text, text_beq_iff, text_eq, lookup}
use werk.Commands.{
  Tools, Command, not_found, Manager, line, redone, arguments, first, emit, command_execute,
  receive, receive_redone, execute,
}

module _ (tools : Tools) where
  pub execute-line :
      (fuel time : ℕ) (l name : Text) (args : List Text) (m : Manager)
      → tools.split (tools.trim l) ≡ name ∷ args
      → name ≢ []
      → execute tools (suc fuel) time (line l) m
        ≡ execute tools fuel time (arguments (name ∷ args)) (receive tools time l m)
  unfolding execute
  execute-line fuel time l name args m e n = ground (arith, text_beq_iff name [])

  pub execute-line_blank :
      (fuel time : ℕ) (l : Text) (m : Manager)
      → first (tools.split (tools.trim l)) ≡ []
      → execute tools (suc fuel) time (line l) m ≡ some (false, receive tools time l m)
  unfolding execute
  execute-line_blank fuel time l m e =
      ground (arith, text_beq_iff (first (tools.split (tools.trim l))) [])

  -- A line that is redone is run as the reference to it reads.
  pub execute-redone :
      (fuel time : ℕ) (l name : Text) (args : List Text) (m : Manager)
      → tools.split (tools.trim (tools.stale m.history l)) ≡ name ∷ args
      → name ≢ []
      → execute tools (suc fuel) time (redone l) m
        ≡ execute tools fuel time (arguments (name ∷ args)) (receive_redone tools time l m)
  unfolding execute
  execute-redone fuel time l name args m e n = ground (arith, text_beq_iff name [])

  pub execute-redone_blank :
      (fuel time : ℕ) (l : Text) (m : Manager)
      → first (tools.split (tools.trim (tools.stale m.history l))) ≡ []
      → execute tools (suc fuel) time (redone l) m ≡ some (false, receive_redone tools time l m)
  unfolding execute
  execute-redone_blank fuel time l m e =
      ground (arith, text_beq_iff (first (tools.split (tools.trim (tools.stale m.history l)))) [])

  pub execute-arguments :
      (fuel time : ℕ) (name : Text) (args : List Text) (c : Command) (m : Manager)
      → lookup name m.commands ≡ some c
      → execute tools (suc fuel) time (arguments (name ∷ args)) m
        ≡ command_execute tools (execute tools fuel time) c (name ∷ args) m
  unfolding execute
  execute-arguments fuel time name args c m e = rw (e, execute)

  pub execute-arguments_unknown :
      (fuel time : ℕ) (name : Text) (args : List Text) (m : Manager)
      → lookup name m.commands ≡ none
      → execute tools (suc fuel) time (arguments (name ∷ args)) m
        ≡ some (false, emit (not_found name) m)
  unfolding execute
  execute-arguments_unknown fuel time name args m e = rw (e, execute)
