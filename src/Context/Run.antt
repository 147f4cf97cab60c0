-- ===== src/Context/Run.antt =====
-- A whole run of the main loop, with the shutdown behind it.
use werk.Prelude.{
  ℕ, ◌≡◌, refl, sym, ap, ◌∙◌, Bool, true, false, none, some, List, [], ◌∷◌, ◌++◌, map,
  if◌then◌else◌, All,
}
use mathlib.Core.List.{append-nil, append_assoc}
use werk.Config.{Config, reload_configurables}
use werk.Config.Getters.{Conversions, get_string, split_into}
use werk.Prelude.Keys.{Text}
use werk.Context.{shutdown_commands_key}
use werk.Commands.{Tools, Manager}
use werk.Context.Loop.{
  Round, Event, App, emit, run_actions, run_commands, finish, shutdown, after_commands, return_code,
  tell_context, run, destroy, leave, run_reloaded,
}
use werk.Context.Rounds.{round_events, last_exit, count_up, quitted, main_loop-quits}

abbrev pub shutdown_events : List ℕ → List Event
shutdown_events actions =
    Event.actions_started
    ∷ (map Event.shutdown_action actions ++ (Event.actions_complete ∷ Event.shutting_down ∷ []))

run_actions-trace :
    (actions : List ℕ) (s : App)
    → run_actions actions s ≡ record s { trace = s.trace ++ map Event.shutdown_action actions }
unfolding run_actions emit
run_actions-trace [] s = ap (λ l. record s { trace = l }) (sym (append-nil s.trace))
run_actions-trace (a ∷ actions) s =
    run_actions-trace actions (emit (Event.shutdown_action a) s)
    ∙ ap (λ l. record s { trace = l })
        (append_assoc s.trace (Event.shutdown_action a ∷ []) (map Event.shutdown_action actions))

module _ {Double : Type 0} (lib : Conversions Double) (tools : Tools) (fuel time : ℕ) where
  finish-trace :
      (s : App)
      → finish lib tools fuel time s
        ≡ record s { trace = s.trace ++ shutdown_events s.shutdown_actions; stopped = true }
  unfolding finish emit
  finish-trace s =
      let acts = map Event.shutdown_action s.shutdown_actions in
      ap (λ x. record (emit Event.shutting_down (emit Event.actions_complete x)) { stopped = true })
        (run_actions-trace s.shutdown_actions (emit Event.actions_started s))
      ∙ ap (λ l. record s { trace = l; stopped = true })
          (append_assoc (((s.trace ++ (Event.actions_started ∷ [])) ++ acts))
              (Event.actions_complete ∷ []) (Event.shutting_down ∷ [])
            ∙ append_assoc (s.trace ++ (Event.actions_started ∷ [])) acts
                (Event.actions_complete ∷ Event.shutting_down ∷ [])
            ∙ append_assoc s.trace (Event.actions_started ∷ [])
                (acts ++ (Event.actions_complete ∷ Event.shutting_down ∷ [])))

  -- The commands that the configuration has for the shutdown.
  abbrev pub commands_of : App → List Text
  commands_of s =
      split_into lib (b';' ∷ []) (get_string shutdown_commands_key none none s.config).0 []

  -- The state behind a shutdown that left the command manager as `m`.
  abbrev pub shut : Manager → App → App
  shut m s = record s {
    config = (get_string shutdown_commands_key none none s.config).1;
    manager = m;
    stopped = true;
    trace = s.trace ++ shutdown_events s.shutdown_actions;
  }

  shutdown_lem :
      (s : App) (m : Manager)
      → s.stopped ≡ false
      → run_commands lib tools fuel time (commands_of s) s.manager ≡ some m
      → shutdown lib tools fuel time s ≡ some (shut m s)
  unfolding shutdown
  shutdown_lem s m e h =
      let (value, config) = get_string shutdown_commands_key none none s.config in
      ap
        (λ b.
          if b
          then some (emit Event.already_shut_down s)
          else after_commands lib tools fuel time config s
              (run_commands lib tools fuel time (commands_of s) s.manager))
        e
      ∙ ap (after_commands lib tools fuel time config s) h
      ∙ ap some (finish-trace (record s { config = config; manager = m }))

  -- The state behind a run whose rounds end with one that quits.
  abbrev pub ended : List Round → Manager → App → App
  ended rounds m s = record (shut m s) {
    quitting = true;
    update_id = count_up rounds s.update_id;
    exit_code = last_exit rounds s.exit_code;
    trace =
        s.trace
        ++ (Event.loop_entered
            ∷ (round_events s.thresholds s.update_id rounds
                ++ (Event.loop_exited (count_up rounds s.update_id)
                    ∷ shutdown_events s.shutdown_actions)));
  }

  leave_lem :
      (rounds : List Round) (s : App) (m : Manager)
      → s.stopped ≡ false
      → run_commands lib tools fuel time (commands_of s) s.manager ≡ some m
      → leave lib tools fuel time (some (quitted rounds (emit Event.loop_entered s)))
        ≡ some (last_exit rounds s.exit_code, ended rounds m s)
  unfolding leave emit
  leave_lem rounds s m e h =
      let x =
        emit (Event.loop_exited (count_up rounds s.update_id))
          (quitted rounds (emit Event.loop_entered s)) in
      let shown = round_events s.thresholds s.update_id rounds in
      let exit = Event.loop_exited (count_up rounds s.update_id) in
      ap (return_code lib tools fuel time) (shutdown_lem x m e h)
      ∙ ap (λ l. some (last_exit rounds s.exit_code, record (ended rounds m s) { trace = l }))
          (append_assoc ((s.trace ++ (Event.loop_entered ∷ [])) ++ shown) (exit ∷ [])
              (shutdown_events s.shutdown_actions)
            ∙ append_assoc (s.trace ++ (Event.loop_entered ∷ [])) shown
                (exit ∷ shutdown_events s.shutdown_actions)
            ∙ append_assoc s.trace (Event.loop_entered ∷ [])
                (shown ++ (exit ∷ shutdown_events s.shutdown_actions)))

  -- Once every configurable has reloaded and the thresholds are read, a run of an application that
  -- is not quitting takes exactly the rounds up to the first that quits, each with its main action
  -- and, if the update was long, its entry of the log, and none behind it. It then shuts down once:
  -- the commands that the configuration has for it, whose effect is `m`, and the shutdown actions,
  -- in order. It returns the last exit code that was set, and the destructor does nothing more.
  pub run_lem :
      (reload : ℕ → Config → Bool) (before : List Round) (r : Round) (after : List Round)
      (start s : App) (told : List ℕ) (config : Config) (m : Manager)
      → reload_configurables reload start.config ≡ (true, told, config)
      → tell_context lib tools fuel time told (record start { config = config }) ≡ some s
      → s.quitting ≡ false
      → s.stopped ≡ false
      → All (λ x. x.quits ≡ false) before
      → r.quits ≡ true
      → run_commands lib tools fuel time (commands_of s) s.manager ≡ some m
      → (run lib tools fuel time reload (before ++ (r ∷ after)) start
          ≡ some (last_exit (before ++ (r ∷ [])) s.exit_code, ended (before ++ (r ∷ [])) m s))
        × (destroy lib tools fuel time (ended (before ++ (r ∷ [])) m s)
            ≡ some (ended (before ++ (r ∷ [])) m s))
  unfolding run run_reloaded destroy emit
  run_lem reload before r after start s told config m reloaded thresholds idle alive all q h =
      let rounds = before ++ (r ∷ after) in
      (
        ap
              (λ x.
                run_reloaded lib tools fuel time rounds x.0
                  (tell_context lib tools fuel time x.1 (record start { config = x.2 })))
              reloaded
            ∙ ap (run_reloaded lib tools fuel time rounds true) thresholds
            ∙ ap (leave lib tools fuel time)
                (main_loop-quits before r after (emit Event.loop_entered s) all q idle)
            ∙ leave_lem (before ++ (r ∷ [])) s m alive h,
        refl,
      )
