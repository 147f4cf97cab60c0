-- ===== src/Signals/Tests.antt =====
-- A call for SIGINT that fails behind one that succeeds, and signals of an application.
use werk.Prelude.{ℕ, ◌≡◌, true, false, some, List, [], ◌∷◌, arith}
use werk.Actions.{Action, State, execute}
use werk.Signals.{sigint, new_handlers, deliver, set_up_signals, run_action}
use werk.Signals.Last.{Setup, set_up, deliver-set_up}
use werk.Signals.Latched.{deliver_all, IsLatched, deliver_all-IsLatched}

abbrev app : ℕ → State → State
app n s = s

abbrev state : State
state = record { latches = false ∷ false ∷ []; counters = []; counts = []; queue = [] }

abbrev setups : List Setup
setups =
    record { signal = sigint; action = some (Action.set_latch_action 0); registers = true }
    ∷ record { signal = sigint; action = some (Action.set_latch_action 1); registers = false }
    ∷ []

-- The action of the call that failed runs.
deliver-set_up_example :
    deliver app sigint (set_up setups new_handlers) state
    ≡ some (record state { latches = false ∷ true ∷ [] })
unfolding run_action execute
deliver-set_up_example = deliver-set_up app sigint setups state

deliver_all-IsLatched_example :
    (s' : State) × (deliver_all app
        (true ∷ true ∷ [])
        (set_up_signals true true 0 1 new_handlers)
        state
      ≡ some s')
    × IsLatched 0 1 (true ∷ true ∷ []) state s'
deliver_all-IsLatched_example =
    deliver_all-IsLatched app 0 1 (true ∷ true ∷ []) new_handlers state (λ e. omega arith)
      (omega arith) (omega arith)
