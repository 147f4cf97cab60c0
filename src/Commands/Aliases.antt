-- ===== src/Commands/Aliases.antt =====
-- Aliases that call themselves.
use werk.Prelude.{ℕ, zero, suc, ◌≡◌, refl, ◌∙◌, List, ◌∷◌, ◌++◌, none, some}
use werk.Prelude.Keys.{Text, text_eq, lookup}
use werk.Commands.{Tools, Command, Manager, arguments, command_execute, execute}
use werk.Commands.Dispatch.{execute-arguments}

module _ (tools : Tools) where
  -- A command that is an alias for a call of itself, or of another command that is one for a call of
  -- it, never returns, with any arguments: no amount of fuel is enough.
  pub alias-diverges :
      (fuel time : ℕ) (a b : Text) (ws vs args : List Text) (m : Manager)
      → lookup a m.commands ≡ some (Command.alias (b ∷ ws))
      → lookup b m.commands ≡ some (Command.alias (a ∷ vs))
      → execute tools fuel time (arguments (a ∷ args)) m ≡ none
  unfolding execute command_execute
  alias-diverges zero time a b ws vs args m there back = refl
  alias-diverges (suc fuel) time a b ws vs args m there back =
      execute-arguments tools fuel time a args (Command.alias (b ∷ ws)) m there
      ∙ alias-diverges fuel time b a vs ws (ws ++ (a ∷ args)) m back there
