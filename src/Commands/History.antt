-- ===== src/Commands/History.antt =====
-- What any execution of the command manager leaves alone, and what an alias does.
use werk.Prelude.{
  ℕ, zero, suc, ◌≡◌, refl, sym, ◌∙◌, ap, List, [], ◌∷◌, ◌++◌, none, some, Bool, true, Option-cases,
  Bool-cases, inl, inr,
}
use mathlib.Core.List.{append_assoc}
use werk.Prelude.Keys.{Text, text_beq, text_eq, lookup}
use werk.Commands.{
  Tools, Command, null, redo, action, custom, echo, alias, command_action, LogLevel, Event, echoed,
  Manager, Call, line, redone, arguments, succeeded, receive_redone, redo_name, previous, first,
  emit, Outcome, redo_execute, command_execute, receive, execute,
}
use werk.Commands.Dispatch.{execute-arguments}

-- The commands are the same, and the history and the events have only grown.
pub record Extends (m m' : Manager) : Type 0 where
  pub commands : m'.commands ≡ m.commands
  pub lines : List (ℕ × Text)
  pub history : m'.history ≡ lines ++ m.history
  pub shown : List Event
  pub events : m'.events ≡ shown ++ m.events

Extends-refl : (m : Manager) → Extends m m
Extends-refl m = record { commands = refl; lines = []; history = refl; shown = []; events = refl }

Extends-trans : (m m' m'' : Manager) → Extends m m' → Extends m' m'' → Extends m m''
Extends-trans m m' m'' a b = record {
  commands = b.commands ∙ a.commands;
  lines = b.lines ++ a.lines;
  history =
      b.history ∙ ap (λ h. b.lines ++ h) a.history ∙ sym (append_assoc b.lines a.lines m.history);
  shown = b.shown ++ a.shown;
  events = b.events ∙ ap (λ h. b.shown ++ h) a.events ∙ sym (append_assoc b.shown a.shown m.events);
}

Extends-emit : (e : Event) (m : Manager) → Extends m (emit e m)
unfolding emit
Extends-emit e m = record {
  commands = refl;
  lines = [];
  history = refl;
  shown = e ∷ [];
  events = refl;
}

module _ (tools : Tools) where
  Extends-receive : (time : ℕ) (l : Text) (m : Manager) → Extends m (receive tools time l m)
  unfolding receive
  Extends-receive time l m = record {
    commands = refl;
    lines = (time, l) ∷ [];
    history = refl;
    shown = Event.received l ∷ [];
    events = refl;
  }

  Extends-receive_redone :
      (time : ℕ) (l : Text) (m : Manager) → Extends m (receive_redone tools time l m)
  unfolding receive_redone
  Extends-receive_redone time l m = record {
    commands = refl;
    lines = (time, l) ∷ [];
    history = refl;
    shown = Event.received (tools.stale m.history l) ∷ [];
    events = refl;
  }

  -- An outcome, if there is one, extends the state.
  abbrev Grows : Manager → Outcome → Type 0
  Grows m none = Unit {0}
  Grows m (some (r, m')) = Extends m m'

  Grows-after : (m m' : Manager) (o : Outcome) → Extends m m' → Grows m' o → Grows m o
  Grows-after m m' none a g = tt
  Grows-after m m' (some (r, m'')) a g = Extends-trans m m' m'' a g

  succeeded-Grows : (m : Manager) (o : Outcome) → Grows m o → Grows m (succeeded o)
  succeeded-Grows m none g = tt
  succeeded-Grows m (some (r, m')) g = g

  redo_execute-Grows :
      (exec : Call → Manager → Outcome)
      → ((c : Call) (m : Manager) → Grows m (exec c m))
      → (m : Manager) → Grows m (redo_execute tools exec m)
  unfolding redo_execute
  redo_execute-Grows exec g m = elim (Option-cases (previous m.history)) [
    | inl e ↦ rw (e, redo_execute) (Extends-refl m)
    | inr (p, e) ↦
        rw (e, redo_execute)
          (elim (Bool-cases (text_beq p redo_name)) [
            | inl b ↦ rw b (Extends-refl m)
            | inr b ↦ rw b (g (redone p) m)
          ])
  ]

  command_execute-Grows :
      (exec : Call → Manager → Outcome)
      → ((c : Call) (m : Manager) → Grows m (exec c m))
      → (c : Command) (args : List Text) (m : Manager)
      → Grows m (command_execute tools exec c args m)
  unfolding command_execute
  command_execute-Grows exec g null args m = Extends-refl m
  command_execute-Grows exec g redo args m = redo_execute-Grows exec g m
  command_execute-Grows exec g (action a) args m = Extends-emit _ m
  command_execute-Grows exec g (custom c) args m = Extends-emit _ m
  command_execute-Grows exec g (echo level) args m = Extends-emit _ m
  command_execute-Grows exec g (alias w) args m = g (arguments (w ++ args)) m
  command_execute-Grows exec g (command_action c as') args m =
      succeeded-Grows m (command_execute tools exec c as' m) (command_execute-Grows exec g c as' m)

  execute-Grows : (fuel time : ℕ) (c : Call) (m : Manager) → Grows m (execute tools fuel time c m)
  unfolding execute
  execute-Grows zero time c m = tt
  execute-Grows (suc fuel) time (line l) m =
      elim (Bool-cases (text_beq (first (tools.split (tools.trim l))) [])) [
        | inl e ↦ rw (e, execute) (Extends-receive time l m)
        | inr e ↦
            rw (e, execute)
              (Grows-after m (receive tools time l m) _ (Extends-receive time l m) (
                execute-Grows fuel time (arguments (tools.split (tools.trim l)))
                  (receive tools time l m)))
      ]
  execute-Grows (suc fuel) time (redone l) m =
      let words = tools.split (tools.trim (tools.stale m.history l)) in
      elim (Bool-cases (text_beq (first words) [])) [
        | inl e ↦ rw (e, execute) (Extends-receive_redone time l m)
        | inr e ↦
            rw (e, execute)
              (Grows-after m (receive_redone tools time l m) _ (Extends-receive_redone time l m)
                (execute-Grows fuel time (arguments words) (receive_redone tools time l m)))
      ]
  execute-Grows (suc fuel) time (arguments []) m = Extends-emit _ m
  execute-Grows (suc fuel) time (arguments (name ∷ args)) m =
      elim (Option-cases (lookup name m.commands)) [
        | inl e ↦ rw (e, execute) (Extends-emit _ m)
        | inr (c, e) ↦
            rw (e, execute)
              (command_execute-Grows (execute tools fuel time) (execute-Grows fuel time) c
                (name ∷ args) m)
      ]

  -- An execution that returns, whatever it runs, leaves the commands as they are and only adds to the
  -- history and to what was logged and run.
  pub execute-Extends :
      (fuel time : ℕ) (c : Call) (m m' : Manager) (r : Bool)
      → execute tools fuel time c m ≡ some (r, m')
      → Extends m m'
  execute-Extends fuel time c m m' r e = rw e at (execute-Grows fuel time c m)

  -- An alias for an echo echoes its own name too, before its arguments.
  pub alias-echo :
      (fuel time : ℕ) (a e : Text) (words args : List Text) (level : LogLevel) (m : Manager)
      → lookup a m.commands ≡ some (alias (e ∷ words))
      → lookup e m.commands ≡ some (echo level)
      → execute tools (suc (suc fuel)) time (arguments (a ∷ args)) m
        ≡ some (true, emit (echoed level (tools.join (words ++ (a ∷ args)))) m)
  unfolding command_execute
  alias-echo fuel time a e words args level m found echoes =
      execute-arguments tools (suc fuel) time a args (alias (e ∷ words)) m found
      ∙ execute-arguments tools fuel time e (words ++ (a ∷ args)) (echo level) m echoes
