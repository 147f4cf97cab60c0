-- ===== src/Signals/Last.antt =====
-- Signals behind any setups of their actions.
use werk.Prelude.{
  ℕ, ◌≡◌, refl, ap, ap₂, sym, ◌∙◌, Bool, true, false, ◌&&◌, ◌||◌, Option, none, some, List, [], ◌∷◌,
  arith, if◌then◌else◌, if-false,
}
use werk.Actions.{Action, State}
use werk.Signals.{
  Signal, sighup, sigint, sigusr1, sigusr2, other_signal, signal_beq, Handlers, new_handlers,
  install, setup_signal_handler, action_of, is_installed, run_action, handle_signal, deliver,
}

-- A call of `setupSignalHandler`, and whether its call of `sigaction` succeeds.
pub record Setup : Type 0 where
  pub signal : Signal
  pub action : Option Action
  pub registers : Bool

abbrev pub set_up : List Setup → Handlers → Handlers
set_up [] h = h
set_up (x ∷ xs) h = set_up xs (setup_signal_handler x.registers x.signal x.action h).1

abbrev pub is_settable : Signal → Bool
is_settable sighup = true
is_settable sigint = true
is_settable sigusr1 = true
is_settable sigusr2 = true
is_settable (other_signal n) = false

-- Whether one of the calls registers a signal.
abbrev pub is_registered : Signal → List Setup → Bool
is_registered signal [] = false
is_registered signal (x ∷ xs) =
    (signal_beq x.signal signal && x.registers) || is_registered signal xs

-- The action of the last of the calls for a signal.
abbrev found : Option (Option Action) → Bool → Option Action → Option (Option Action)
found (some a) is_for b = some a
found none true b = some b
found none false b = none

abbrev pub last_action : Signal → List Setup → Option (Option Action)
last_action signal [] = none
last_action signal (x ∷ xs) = found (last_action signal xs) (signal_beq x.signal signal) x.action

-- A null pointer, and no call, both run nothing.
abbrev pub or_else : Option (Option Action) → Option Action → Option Action
or_else none a = a
or_else (some b) a = b

action_of-install :
    (signal x : Signal) (registers : Bool) (h : Handlers)
    → action_of signal (install registers x h).1 ≡ action_of signal h
unfolding action_of install
action_of-install sighup x true h = refl
action_of-install sighup x false h = refl
action_of-install sigint x true h = refl
action_of-install sigint x false h = refl
action_of-install sigusr1 x true h = refl
action_of-install sigusr1 x false h = refl
action_of-install sigusr2 x true h = refl
action_of-install sigusr2 x false h = refl
action_of-install (other_signal n) x true h = refl
action_of-install (other_signal n) x false h = refl

action_of-setup :
    (signal x : Signal) (registers : Bool) (action : Option Action) (h : Handlers)
    → is_settable signal ≡ true
    → action_of signal (setup_signal_handler registers x action h).1
      ≡ (if signal_beq x signal then action else action_of signal h)
unfolding action_of setup_signal_handler
action_of-setup sighup sighup r a h e = action_of-install sighup sighup r _
action_of-setup sigint sighup r a h e = action_of-install sigint sighup r _
action_of-setup sigusr1 sighup r a h e = action_of-install sigusr1 sighup r _
action_of-setup sigusr2 sighup r a h e = action_of-install sigusr2 sighup r _
action_of-setup sighup sigint r a h e = action_of-install sighup sigint r _
action_of-setup sigint sigint r a h e = action_of-install sigint sigint r _
action_of-setup sigusr1 sigint r a h e = action_of-install sigusr1 sigint r _
action_of-setup sigusr2 sigint r a h e = action_of-install sigusr2 sigint r _
action_of-setup sighup sigusr1 r a h e = action_of-install sighup sigusr1 r _
action_of-setup sigint sigusr1 r a h e = action_of-install sigint sigusr1 r _
action_of-setup sigusr1 sigusr1 r a h e = action_of-install sigusr1 sigusr1 r _
action_of-setup sigusr2 sigusr1 r a h e = action_of-install sigusr2 sigusr1 r _
action_of-setup sighup sigusr2 r a h e = action_of-install sighup sigusr2 r _
action_of-setup sigint sigusr2 r a h e = action_of-install sigint sigusr2 r _
action_of-setup sigusr1 sigusr2 r a h e = action_of-install sigusr1 sigusr2 r _
action_of-setup sigusr2 sigusr2 r a h e = action_of-install sigusr2 sigusr2 r _
action_of-setup sighup (other_signal n) r a h e = ground arith
action_of-setup sigint (other_signal n) r a h e = ground arith
action_of-setup sigusr1 (other_signal n) r a h e = ground arith
action_of-setup sigusr2 (other_signal n) r a h e = ground arith
action_of-setup (other_signal n) x r a h e = cc

installed-setup :
    (signal x : Signal) (registers : Bool) (action : Option Action) (h : Handlers)
    → is_settable signal ≡ true
    → is_installed signal (setup_signal_handler registers x action h).1.installed
      ≡ (signal_beq x signal && registers) || is_installed signal h.installed
unfolding setup_signal_handler install
installed-setup signal sighup true a h e = ground arith
installed-setup signal sighup false a h e = ground arith
installed-setup signal sigint true a h e = ground arith
installed-setup signal sigint false a h e = ground arith
installed-setup signal sigusr1 true a h e = ground arith
installed-setup signal sigusr1 false a h e = ground arith
installed-setup signal sigusr2 true a h e = ground arith
installed-setup signal sigusr2 false a h e = ground arith
installed-setup sighup (other_signal n) r a h e = ground arith
installed-setup sigint (other_signal n) r a h e = ground arith
installed-setup sigusr1 (other_signal n) r a h e = ground arith
installed-setup sigusr2 (other_signal n) r a h e = ground arith
installed-setup (other_signal m) (other_signal n) r a h e = cc

found-or :
    (o : Option (Option Action)) (b : Bool) (action before : Option Action)
    → or_else (found o b action) before ≡ or_else o (if b then action else before)
found-or (some a) b action before = refl
found-or none true action before = refl
found-or none false action before = refl

action_of-set_up :
    (signal : Signal) (xs : List Setup) (h : Handlers)
    → is_settable signal ≡ true
    → action_of signal (set_up xs h) ≡ or_else (last_action signal xs) (action_of signal h)
action_of-set_up signal [] h e = refl
action_of-set_up signal (x ∷ xs) h e =
    action_of-set_up signal xs _ e
    ∙ ap (or_else (last_action signal xs))
        (action_of-setup signal x.signal x.registers x.action h e)
    ∙ sym (found-or (last_action signal xs) (signal_beq x.signal signal) x.action _)

or-swap : (a b c : Bool) → a || (b || c) ≡ (b || a) || c
or-swap a b c = ground arith

installed-set_up :
    (signal : Signal) (xs : List Setup) (h : Handlers)
    → is_settable signal ≡ true
    → is_installed signal (set_up xs h).installed
      ≡ is_registered signal xs || is_installed signal h.installed
installed-set_up signal [] h e = refl
installed-set_up signal (x ∷ xs) h e =
    installed-set_up signal xs _ e
    ∙ ap (λ b. is_registered signal xs || b)
        (installed-setup signal x.signal x.registers x.action h e)
    ∙ or-swap (is_registered signal xs) (signal_beq x.signal signal && x.registers) _

-- Signals that the source does not name are never installed.
other-setup :
    (n : ℕ) (x : Signal) (registers : Bool) (action : Option Action) (h : Handlers)
    → is_installed (other_signal n) (setup_signal_handler registers x action h).1.installed
      ≡ is_installed (other_signal n) h.installed
unfolding setup_signal_handler install
other-setup n sighup true a h = ground arith
other-setup n sighup false a h = refl
other-setup n sigint true a h = ground arith
other-setup n sigint false a h = refl
other-setup n sigusr1 true a h = ground arith
other-setup n sigusr1 false a h = refl
other-setup n sigusr2 true a h = ground arith
other-setup n sigusr2 false a h = refl
other-setup n (other_signal m) r a h = refl

other-set_up :
    (n : ℕ) (xs : List Setup) (h : Handlers)
    → is_installed (other_signal n) (set_up xs h).installed
      ≡ is_installed (other_signal n) h.installed
other-set_up n [] h = refl
other-set_up n (x ∷ xs) h = other-set_up n xs _ ∙ other-setup n x.signal x.registers x.action h

or-false : (b : Bool) → b || false ≡ b
or-false b = ground arith

deliver-settable :
    (app : ℕ → State → State) (signal : Signal) (xs : List Setup) (s : State)
    → is_settable signal ≡ true
    → action_of signal new_handlers ≡ none
    → deliver app signal (set_up xs new_handlers) s ≡ (
        if is_registered signal xs
        then some (run_action app (or_else (last_action signal xs) none) s)
        else none)
unfolding deliver handle_signal
deliver-settable app signal xs s e unset =
    ap₂ (λ b a. if b then some (run_action app a s) else none)
      (installed-set_up signal xs new_handlers e ∙ or-false (is_registered signal xs))
      (action_of-set_up signal xs new_handlers e ∙ ap (or_else (last_action signal xs)) unset)

-- A signal that arrives once `setupSignalHandler` has been called any number of times, from the
-- start of the program on, whether the calls of `sigaction` succeeded or not: if it is SIGHUP,
-- SIGINT, SIGUSR1 or SIGUSR2, and the system accepted one of the calls for it, it runs the action of
-- the last call for it, be that one that failed, and nothing for a null pointer; else it is left to
-- the system.
pub deliver-set_up :
    (app : ℕ → State → State) (signal : Signal) (xs : List Setup) (s : State)
    → deliver app signal (set_up xs new_handlers) s ≡ (
        if is_settable signal && is_registered signal xs
        then some (run_action app (or_else (last_action signal xs) none) s)
        else none)
unfolding deliver action_of
deliver-set_up app sighup xs s = deliver-settable app sighup xs s refl refl
deliver-set_up app sigint xs s = deliver-settable app sigint xs s refl refl
deliver-set_up app sigusr1 xs s = deliver-settable app sigusr1 xs s refl refl
deliver-set_up app sigusr2 xs s = deliver-settable app sigusr2 xs s refl refl
deliver-set_up app (other_signal n) xs s =
    if-false (is_installed (other_signal n) (set_up xs new_handlers).installed) _ _
      (other-set_up n xs new_handlers)
