-- ===== src/Context/Loop.antt =====
-- The main loop of Context, and its shutdown, of an application that runs in real time. The clocks,
-- the profiles, the watchdog, the console and the background thread's clock are left out. `none` is
-- a number of the configuration that is not read, which throws, a command that does not return, or a
-- loop that has not ended yet.
use werk.Prelude.{
  ℕ, Bool, true, false, ◌||◌, Option, none, some, List, [], ◌∷◌, ◌++◌, leb, if◌then◌else◌,
}
use werk.Prelude.Int.{ℤ, pos, to_u64}
use werk.Prelude.Keys.{Text}
use werk.Prelude.Words.{add_u64}
use werk.Context.{
  shutdown_commands_key, alert_threshold_key, warning_threshold_key, error_threshold_key,
  critical_threshold_key,
}
use werk.Config.{Config, reload_configurables}
use werk.Config.Getters.{Conversions, get_string, get_time_amount, split_into}
use werk.Commands.{Tools, Manager, LogLevel, line}
use werk.Commands as Commands

infixl 5 ◌>>=◌
abbrev pub ◌>>=◌ {ℓ κ} : {A : Type ℓ} {B : Type κ} → Option A → (A → Option B) → Option B
none >>= f = none
some a >>= f = f a

-- What the main action, the queue of actions and the console do in a round, as far as the loop sees
-- it: whether the quitting latch is set, the exit code if it is set, and how long the update takes.
pub record Round : Type 0 where
  pub quits : Bool
  pub sets_exit : Option ℤ
  pub update_time : ℤ

-- An entry of the log, or an action that runs.
pub data Event : Type 0 where
  reload_failed loop_entered actions_started actions_complete shutting_down : Event
  already_shut_down : Event
  main_action loop_exited shutdown_action : ℕ → Event
  long_update : LogLevel → ℤ → Event

pub record Thresholds : Type 0 where
  pub alert : ℕ
  pub warning : ℕ
  pub error : ℕ
  pub critical : ℕ

-- `stopped` is that of the background thread. The trace is in the order of time.
pub record App : Type 0 where
  pub config : Config
  pub manager : Manager
  pub shutdown_actions : List ℕ
  pub thresholds : Thresholds
  pub quitting : Bool
  pub stopped : Bool
  pub update_id : ℕ
  pub exit_code : ℤ
  pub trace : List Event

unfoldable pub emit : Event → App → App
emit e s = record s { trace = s.trace ++ (e ∷ []) }

-- How an update is logged. The comparison of the source is one of uint64_t.
unfoldable pub level_of : Thresholds → ℤ → Option LogLevel
level_of t time =
    if leb t.alert (to_u64 time)
    then some (
        if leb t.critical (to_u64 time)
        then LogLevel.critical
        else if leb t.error (to_u64 time)
        then LogLevel.error
        else if leb t.warning (to_u64 time)
        then LogLevel.warning
        else LogLevel.alert)
    else none

unfoldable pub log_update : Option LogLevel → ℤ → App → App
unfolding emit
log_update none time s = s
log_update (some level) time s = emit (long_update level time) s

abbrev pub exit_of : Option ℤ → ℤ → ℤ
exit_of none code = code
exit_of (some c) code = c

-- The body of the loop.
unfoldable pub round_step : Round → App → App
unfolding emit level_of log_update
round_step r s =
    let s' = emit (main_action (add_u64 s.update_id 1)) (record s {
      update_id = add_u64 s.update_id 1;
      quitting = s.quitting || r.quits;
      exit_code = exit_of r.sets_exit s.exit_code;
    }) in
    log_update (level_of s'.thresholds r.update_time) r.update_time s'

-- The loop, through the rounds that are given; and whether it has ended.
unfoldable pub main_loop : List Round → App → Option App
unfolding round_step
main_loop [] s = if s.quitting then some s else none
main_loop (r ∷ rs) s =
    let rest = main_loop rs (round_step r s) in if s.quitting then some s else rest

unfoldable pub run_actions : List ℕ → App → App
unfolding emit
run_actions [] s = s
run_actions (a ∷ actions) s = run_actions actions (emit (shutdown_action a) s)

module _ {Double : Type 0} (lib : Conversions Double) (tools : Tools) (fuel time : ℕ) where
  -- The commands of a list, in order, whatever they return.
  unfoldable pub run_commands : List Text → Manager → Option Manager
  unfolding Commands.execute
  run_commands [] m = some m
  run_commands (c ∷ cs) m = elim (Commands.execute tools fuel time (line c) m) [
    | none ↦ none
    | some (success, m') ↦ run_commands cs m'
  ]

  -- `shutdown` behind the commands.
  unfoldable pub finish : App → App
  unfolding emit run_actions
  finish s =
      let s' = emit actions_complete (run_actions s.shutdown_actions (emit actions_started s)) in
      record (emit shutting_down s') { stopped = true }

  unfoldable pub after_commands : Config → App → Option Manager → Option App
  unfolding finish
  after_commands config s none = none
  after_commands config s (some m) = some (finish (record s { config = config; manager = m }))

  unfoldable pub shutdown : App → Option App
  unfolding emit run_commands after_commands get_string
  shutdown s =
      if s.stopped
      then some (emit already_shut_down s)
      else (let (value, config) = get_string shutdown_commands_key none none s.config in
          after_commands config s (run_commands (split_into lib (b';' ∷ []) value []) s.manager))

  -- The destructor.
  unfoldable pub destroy : App → Option App
  unfolding shutdown
  destroy s = if s.stopped then some s else shutdown s

  abbrev pub return_code : Option App → Option (ℤ × App)
  return_code none = none
  return_code (some s) = some (s.exit_code, s)

  -- `run` behind the loop.
  unfoldable pub leave : Option App → Option (ℤ × App)
  unfolding emit shutdown
  leave none = none
  leave (some s) = return_code (shutdown (emit (loop_exited s.update_id) s))

  -- `reloadConfig`, which reads the thresholds.
  unfoldable pub reload_config : Config → Option (Thresholds × Config)
  unfolding get_time_amount
  reload_config c = do
    a ← get_time_amount lib alert_threshold_key 250000 none c
    w ← get_time_amount lib warning_threshold_key 1000000 none a.1
    e ← get_time_amount lib error_threshold_key 2000000 none w.1
    k ← get_time_amount lib critical_threshold_key 5000000 none e.1
    some (record { alert = a.0; warning = w.0; error = e.0; critical = k.0 }, k.1)

  abbrev pub store_thresholds : App → Option (Thresholds × Config) → Option App
  store_thresholds s none = none
  store_thresholds s (some (t, c)) = some (record s { thresholds = t; config = c })

  -- The context is the first of the configurables.
  unfoldable pub tell_context : List ℕ → App → Option App
  unfolding reload_config
  tell_context [] s = some s
  tell_context (k ∷ ks) s = store_thresholds s (reload_config s.config)

  -- `run` behind the reload.
  unfoldable pub run_reloaded : List Round → Bool → Option App → Option (ℤ × App)
  unfolding emit leave main_loop
  run_reloaded rounds success none = none
  run_reloaded rounds true (some s) = leave (main_loop rounds (emit loop_entered s))
  run_reloaded rounds false (some s) = some (pos 1, emit reload_failed s)

  -- `run`, given what the configurables return, of which the context succeeds.
  unfoldable pub run : (ℕ → Config → Bool) → List Round → App → Option (ℤ × App)
  unfolding reload_configurables tell_context run_reloaded
  run reload rounds s =
      let (success, told, config) = reload_configurables reload s.config in
      run_reloaded rounds success (tell_context told (record s { config = config }))
