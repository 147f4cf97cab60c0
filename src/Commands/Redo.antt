-- ===== src/Commands/Redo.antt =====
-- When `redo` returns.
use werk.Prelude.{ℕ, ◌≡◌, ◌≢◌, List, [], ◌∷◌, Option, some, Bool}
use werk.Prelude.Keys.{Text, text_eq, lookup}
use werk.Commands.{
  Tools, Command, null, redo, action, custom, echo, alias, command_action, Manager, redo_name,
  Outcome,
}

-- The command that a command runs, through actions that run commands.
abbrev pub target : Command → Command
target null = null
target redo = redo
target (action a) = action a
target (custom c) = custom c
target (echo level) = echo level
target (alias w) = alias w
target (command_action c args) = target c

-- No command is an alias, or has an action that runs one.
abbrev pub NoAlias : List (Text × Command) → Type 0
NoAlias commands =
    (name : Text) (c : Command) (w : List Text) → lookup name commands ≡ some c → target c ≢ alias w

abbrev pub Returns : Outcome → Type 0
Returns o = (r : Bool × Manager) × (o ≡ some r)

module _ (tools : Tools) where
  -- A line that the manager parses as a call of the redo command.
  abbrev pub Redoes : List (Text × Command) → Text → Type 0
  Redoes commands l =
      (name : Text) × (args : List Text) × (tools.split (tools.trim l) ≡ name ∷ args)
      × (name ≢ [])
      × (c : Command) × (lookup name commands ≡ some c)
      × (target c ≡ redo)

  -- The line and the last line of the history both call redo, and neither is the bare text "redo".
  pub record Loops (l : Text) (m : Manager) : Type 0 where
    pub time : ℕ
    pub last : Text
    pub before : List (ℕ × Text)
    pub history : m.history ≡ (time, last) ∷ before
    pub redoes : Redoes m.commands l
    pub last_redoes : Redoes m.commands last
    pub not_bare : l ≢ redo_name
    pub last_not_bare : last ≢ redo_name
