-- ===== src/Actions/Tests.antt =====
-- Actions of each class, through the queue.
use werk.Prelude.{ℕ, ◌+◌, ◌≡◌, refl, true, false, some, List, [], ◌∷◌, get_or, set}
use werk.Actions.{Action, State, CounterMode, execute, execute_queue}
use werk.Actions.Once.{push_all, execute_queue-once}

-- The application's actions count themselves.
abbrev app : ℕ → State → State
app n s = record s { counts = set s.counts n (get_or s.counts n 0 + 1) }

abbrev state : State
state = record {
  latches = false ∷ [];
  counters = record { initial = 3; step = 2; mode = CounterMode.multiply; value = 3 } ∷ [];
  counts = 0 ∷ 0 ∷ [];
  queue = [];
}

-- The condition holds the second time only.
abbrev actions : List Action
actions =
    Action.conditional_action 0 (Action.application 1)
    ∷ Action.set_latch_action 0
    ∷ Action.pair_action (Action.increment_counter_action 0) (Action.counter_action 0)
    ∷ Action.conditional_action 0 (Action.application 1)
    ∷ []

execute_queue-once_example :
    execute_queue app 5 (push_all actions state)
    ≡ some (record state {
      latches = true ∷ [];
      counters = record { initial = 3; step = 2; mode = CounterMode.multiply; value = 6 } ∷ [];
      counts = 1 ∷ 1 ∷ [];
    })
unfolding execute
execute_queue-once_example = execute_queue-once app actions state (λ n q s. refl) refl
