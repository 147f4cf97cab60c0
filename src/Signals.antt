-- ===== src/Signals.antt =====
-- src/Werk/OS/Signals.cpp: the actions that signals run, and which signals run them. And the two
-- signals that src/Werk/Application/Context.cpp sets up.
mod Last
mod Latched
mod Tests
use werk.Prelude.{
  ℕ, zero, suc, Bool, true, false, ◌||◌, Option, none, some, List, [], ◌∷◌, ◌==◌, if◌then◌else◌,
}
use werk.Actions.{Action, State, execute}

-- The signals that the source names, and the others by a number of their own.
pub data Signal : Type 0 where
  sighup sigint sigusr1 sigusr2 : Signal
  other_signal : ℕ → Signal

abbrev code : Signal → ℕ
code sighup = 0
code sigint = 1
code sigusr1 = 2
code sigusr2 = 3
code (other_signal n) = suc (suc (suc (suc n)))

abbrev pub signal_beq : Signal → Signal → Bool
signal_beq a b = code a == code b

-- The static pointers, `none` for a null pointer, and the signals for which the system has been
-- given `handleSignal`.
pub record Handlers : Type 0 where
  pub sighup_action : Option Action
  pub sigint_action : Option Action
  pub sigusr1_action : Option Action
  pub sigusr2_action : Option Action
  pub installed : List Signal

abbrev pub new_handlers : Handlers
new_handlers = record {
  sighup_action = none;
  sigint_action = none;
  sigusr1_action = none;
  sigusr2_action = none;
  installed = [];
}

-- The call of `sigaction`, which succeeds or not.
unfoldable pub install : Bool → Signal → Handlers → Bool × Handlers
install true signal h = (true, record h { installed = signal ∷ h.installed })
install false signal h = (false, h)

-- `setupSignalHandler`; `registers` is whether its call of `sigaction` succeeds.
unfoldable pub setup_signal_handler : Bool → Signal → Option Action → Handlers → Bool × Handlers
unfolding install
setup_signal_handler registers sighup action h =
    install registers sighup (record h { sighup_action = action })
setup_signal_handler registers sigint action h =
    install registers sigint (record h { sigint_action = action })
setup_signal_handler registers sigusr1 action h =
    install registers sigusr1 (record h { sigusr1_action = action })
setup_signal_handler registers sigusr2 action h =
    install registers sigusr2 (record h { sigusr2_action = action })
setup_signal_handler registers (other_signal n) action h = (false, h)

-- The switch of `handleSignal`.
unfoldable pub action_of : Signal → Handlers → Option Action
action_of sighup h = h.sighup_action
action_of sigint h = h.sigint_action
action_of sigusr1 h = h.sigusr1_action
action_of sigusr2 h = h.sigusr2_action
action_of (other_signal n) h = none

abbrev pub is_installed : Signal → List Signal → Bool
is_installed signal [] = false
is_installed signal (x ∷ xs) = signal_beq x signal || is_installed signal xs

-- `app` is what an action of the application does.
module _ (app : ℕ → State → State) where
  unfoldable pub run_action : Option Action → State → State
  run_action none s = s
  run_action (some action) s = execute app action s

  unfoldable pub handle_signal : Signal → Handlers → State → State
  unfolding run_action action_of
  handle_signal signal h s = run_action (action_of signal h) s

  -- A signal arrives; `none` leaves it to what the system does without `handleSignal`.
  unfoldable pub deliver : Signal → Handlers → State → Option State
  unfolding handle_signal
  deliver signal h s =
      if is_installed signal h.installed then some (handle_signal signal h s) else none

-- The end of `Context::Context`, where a latch is referred to by its place: the results go to the
-- log.
unfoldable pub set_up_signals : Bool → Bool → ℕ → ℕ → Handlers → Handlers
unfolding setup_signal_handler
set_up_signals hup int reload_latch quit_latch h =
    let reloads = some (Action.set_latch_action reload_latch) in
    let quits = some (Action.set_latch_action quit_latch) in
    (setup_signal_handler int sigint quits (setup_signal_handler hup sighup reloads h).1).1
