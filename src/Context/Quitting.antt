-- ===== src/Context/Quitting.antt =====
-- Which command a line finds once the application has started.
use werk.Prelude.{
  ℕ, suc, ◌≡◌, ◌≢◌, refl, sym, ap, ◌∙◌, inl, inr, Bool, true, false, Option, none, some, List, [],
  ◌∷◌, ◌++◌, if◌then◌else◌, Bool-cases, Option-cases,
}
use werk.Prelude.Keys.{Text, text_eq, lookup, lookup-insert, lookup-insert_ne, lookup-insert_self}
use werk.Context.{command_aliases_key}
use werk.Config.{Config}
use werk.Config.Getters.{Conversions, get_strings}
use werk.Commands.{
  Tools, Command, Manager, Event, emit, add, new_alias, receive, execute, line, arguments,
  command_execute,
}
use werk.Commands.Dispatch.{execute-line, execute-arguments}
use werk.Commands.History.{execute-Extends}
use werk.Context.Loop.{run_commands}
use werk.Context.Startup.{
  quit_name, consoles_name, quit_action, add_if, register, split_colon, add_alias, add_aliases,
  set_up_commands, start_up, consoles_command, segfault_name, segfault_command,
}

module _ (tools : Tools) where
  -- The last alias for a name.
  abbrev pub alias_for : Text → Option (Text × Text) → Option Command → Option Command
  alias_for name p (some c) = some c
  alias_for name none none = none
  alias_for name (some (n, command)) none =
      if text_eq.beq n name then some (new_alias tools command) else none

  abbrev pub last_alias : Text → List Text → Option Command
  last_alias name [] = none
  last_alias name (a ∷ as') = alias_for name (split_colon a) (last_alias name as')

  abbrev or_found : Option Command → Option Command → Option Command
  or_found none o = o
  or_found (some c) o = some c

  add_alias-lookup :
      (name : Text) (p : Option (Text × Text)) (o : Option Command) (m : Manager)
      → or_found o (lookup name (add_alias tools p m).commands)
        ≡ or_found (alias_for name p o) (lookup name m.commands)
  unfolding add_alias add
  add_alias-lookup name p (some c) m = refl
  add_alias-lookup name none none m = refl
  add_alias-lookup name (some (n, command)) none m = elim (Bool-cases (text_eq.beq n name)) [
    | inl e ↦ rw (lookup-insert n name (new_alias tools command) m.commands, e) refl
    | inr e ↦ rw (lookup-insert n name (new_alias tools command) m.commands, e) refl
  ]

  add_aliases-lookup :
      (name : Text) (as' : List Text) (m : Manager)
      → lookup name (add_aliases tools as' m).0.commands
        ≡ or_found (last_alias name as') (lookup name m.commands)
  unfolding add_aliases
  add_aliases-lookup name [] m = refl
  add_aliases-lookup name (a ∷ as') m =
      add_aliases-lookup name as' (add_alias tools (split_colon a) m)
      ∙ add_alias-lookup name (split_colon a) (last_alias name as') m

  add_if-lookup :
      (b : Bool) (name n : Text) (c : Command) (m : Manager)
      → ¬ (n ≡ name)
      → lookup name (add_if b n c m).commands ≡ lookup name m.commands
  unfolding add_if add
  add_if-lookup true name n c m h = lookup-insert_ne n name c m.commands h
  add_if-lookup false name n c m h = refl

  register-quit :
      (profiles simulation : Bool) (m : Manager)
      → lookup quit_name (register profiles simulation m).commands
        ≡ some (Command.action quit_action)
  unfolding register add
  register-quit profiles simulation m =
      add_if-lookup simulation quit_name segfault_name (Command.custom segfault_command) _ (λ e. cc)
      ∙ lookup-insert_self quit_name (Command.action quit_action) _

module _ {Double : Type 0} (lib : Conversions Double) (tools : Tools) (fuel time : ℕ) where
  abbrev pub aliases_of : Config → List Text
  aliases_of c = (get_strings lib command_aliases_key [] none (b';' ∷ []) none c).1

  run_commands-commands :
      (ls : List Text) (m m' : Manager)
      → run_commands lib tools fuel time ls m ≡ some m'
      → m'.commands ≡ m.commands
  unfolding run_commands
  run_commands-commands [] m m' e = cc
  run_commands-commands (l ∷ ls) m m' e = elim (Option-cases (execute tools fuel time (line l) m)) [
    | inl n ↦ cc (rw (n, run_commands) at e)
    | inr ((r, m1), h) ↦
        run_commands-commands ls m1 m' (rw (h, run_commands) at e)
        ∙ (execute-Extends tools fuel time (line l) m m1 r h).commands
  ]

  set_up-lookup :
      (name : Text) (profiles simulation consoles : Bool) (c : Config) (m : Manager)
      → ¬ (consoles_name ≡ name)
      → lookup name
          (set_up_commands lib tools fuel time profiles simulation consoles c m).0.commands
        ≡ or_found tools
            (last_alias tools name (aliases_of c))
            (lookup name (register profiles simulation m).commands)
  unfolding set_up_commands
  set_up-lookup name profiles simulation consoles c m h =
      add_if-lookup tools consoles name consoles_name (Command.custom consoles_command)
        (add_aliases tools (aliases_of c) (register profiles simulation m)).0 h
      ∙ add_aliases-lookup tools name (aliases_of c) (register profiles simulation m)

  start_up-lookup :
      (profiles simulation consoles : Bool) (c : Config) (m m1 m2 : Manager) (ls : List Text)
      (name : Text)
      → start_up lib tools fuel time profiles simulation consoles c m ≡ some m1
      → run_commands lib tools fuel time ls m1 ≡ some m2
      → name ≢ consoles_name
      → lookup name m2.commands
        ≡ or_found tools
            (last_alias tools name (aliases_of c))
            (lookup name (register profiles simulation m).commands)
  unfolding start_up
  start_up-lookup profiles simulation consoles c m m1 m2 ls name started ran other =
      let set_up = set_up_commands lib tools fuel time profiles simulation consoles c m in
      ap (lookup name)
        (run_commands-commands ls m1 m2 ran ∙ run_commands-commands _ set_up.0 m1 started)
      ∙ set_up-lookup name profiles simulation consoles c m (λ e. other (sym e))

  -- Once the application has started, and after any lines that return: a line that calls `quit` runs
  -- the quit action, if the configuration has no alias of that name.
  pub start_up-quits :
      (profiles simulation consoles : Bool) (c : Config) (m m1 m2 : Manager) (ls : List Text)
      (l : Text) (args : List Text) (n : ℕ)
      → start_up lib tools fuel time profiles simulation consoles c m ≡ some m1
      → run_commands lib tools fuel time ls m1 ≡ some m2
      → tools.split (tools.trim l) ≡ quit_name ∷ args
      → last_alias tools quit_name (aliases_of c) ≡ none
      → execute tools (suc (suc n)) time (line l) m2
        ≡ some (true, emit (Event.ran quit_action) (receive tools time l m2))
  unfolding command_execute receive
  start_up-quits profiles simulation consoles c m m1 m2 ls l args n started ran split no_alias =
      execute-line tools (suc n) time l quit_name args m2 split (λ e. cc)
      ∙ execute-arguments tools n time quit_name args (Command.action quit_action)
          (receive tools time l m2)
          (start_up-lookup profiles simulation consoles c m m1 m2 ls quit_name started ran (λ e. cc)
            ∙ ap
                (λ o. or_found tools o (lookup quit_name (register profiles simulation m).commands))
                no_alias
            ∙ register-quit tools profiles simulation m)

  -- Once the application has started, and after any lines that return: a line that calls a name for
  -- which the configuration has an alias, `consoles` aside, runs the words of the last alias for it
  -- with the line's own words behind them, whatever command had the name.
  pub start_up-aliases :
      (profiles simulation consoles : Bool) (c : Config) (m m1 m2 : Manager) (ls : List Text)
      (l name : Text) (args words : List Text) (n : ℕ)
      → start_up lib tools fuel time profiles simulation consoles c m ≡ some m1
      → run_commands lib tools fuel time ls m1 ≡ some m2
      → tools.split (tools.trim l) ≡ name ∷ args
      → name ≢ []
      → name ≢ consoles_name
      → last_alias tools name (aliases_of c) ≡ some (Command.alias words)
      → execute tools (suc (suc n)) time (line l) m2
        ≡ execute tools n time (arguments (words ++ (name ∷ args))) (receive tools time l m2)
  unfolding command_execute receive
  start_up-aliases profiles simulation consoles c m m1 m2 ls l name args words n started ran split
        text other found =
      execute-line tools (suc n) time l name args m2 split text
      ∙ execute-arguments tools n time name args (Command.alias words) (receive tools time l m2) (
          start_up-lookup profiles simulation consoles c m m1 m2 ls name started ran other
          ∙ ap (λ o. or_found tools o (lookup name (register profiles simulation m).commands))
              found)
