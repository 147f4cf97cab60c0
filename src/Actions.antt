-- ===== src/Actions.antt =====
-- src/Werk/Utility/Action.hpp, Latch.hpp and Counter.hpp, and the queue of
-- src/Werk/Threading/ActionQueue.hpp: actions that run actions, and what they change.
mod Once
mod Tests
use werk.Prelude.{
  ℕ, zero, suc, ◌+◌, ◌-◌, ◌*◌, ◌/◌, ◌%◌, ◌^◌, ◌≤◌, ◌<◌, ◌≡◌, ◌≢◌, refl, sym, ap, ap₂, ◌∙◌, subst,
  ◌⊎◌, inl, inr, Bool, true, false, not, ◌&&◌, ◌||◌, Option, none, some, List, [], ◌∷◌, ◌++◌, map,
  arith, ltb, leb, ◌==◌, ==_iff, if◌then◌else◌, if-true, if-false, Bool-cases, Option-cases, length,
  get_elem?, get_or, set, take, drop, All, All-append, length-append, length-set,
}
use werk.Prelude.Words.{add_u64, u64_mod}

pub data CounterMode : Type 0 where
  add multiply lshift : CounterMode

-- `Counter<uint64_t, initial, step, mode>`. A shift by 64 or more, which the source leaves
-- undefined, is taken to give 0.
pub record Counter : Type 0 where
  pub initial : ℕ
  pub step : ℕ
  pub mode : CounterMode
  pub value : ℕ

unfoldable pub increment_by : CounterMode → ℕ → ℕ → ℕ
increment_by add step value = add_u64 value step
increment_by multiply step value = value * step % u64_mod
increment_by lshift step value = value * 2 ^ step % u64_mod

unfoldable pub increment : Counter → Counter
unfolding increment_by
increment c = record c { value = increment_by c.mode c.step c.value }

unfoldable pub reset_counter : Counter → Counter
reset_counter c = record c { value = c.initial }

-- Actions of the library. `application` is one of the application's; latches, counters and the
-- counts of `CounterAction`s are referred to by their place in the state.
mutual
  pub data Action : Type 0 where
    null_action : Action
    counter_action set_latch_action reset_latch_action : ℕ → Action
    increment_counter_action reset_counter_action : ℕ → Action
    compound_action : Actions → Action
    pair_action : Action → Action → Action
    conditional_action : ℕ → Action → Action
    application : ℕ → Action

  pub data Actions : Type 0 where
    no_actions : Actions
    then_action : Action → Actions → Actions

-- `queue` is the oldest first.
pub record State : Type 0 where
  pub latches : List Bool
  pub counters : List Counter
  pub counts : List ℕ
  pub queue : List Action

-- The capacity of the queue.
abbrev pub capacity : ℕ
capacity = 1024

-- `ActionQueue::push`: what does not fit is dropped.
unfoldable pub push : Action → State → State
push a s = if ltb (length s.queue) capacity then record s { queue = s.queue ++ (a ∷ []) } else s

abbrev no_counter : Counter
no_counter = record { initial = 0; step = 0; mode = add; value = 0 }

-- `app` is what an action of the application does.
module _ (app : ℕ → State → State) where
  unfoldable mutual
    unfolding increment reset_counter

    -- `execute` of each class.
    pub execute : Action → State → State
    execute null_action s = s
    execute (counter_action n) s = record s {
      counts = set s.counts n (add_u64 (get_or s.counts n 0) 1);
    }
    execute (set_latch_action n) s = record s { latches = set s.latches n true }
    execute (reset_latch_action n) s = record s { latches = set s.latches n false }
    execute (increment_counter_action n) s = record s {
      counters = set s.counters n (increment (get_or s.counters n no_counter));
    }
    execute (reset_counter_action n) s = record s {
      counters = set s.counters n (reset_counter (get_or s.counters n no_counter));
    }
    execute (compound_action as') s = execute_each as' s
    execute (pair_action a b) s = execute b (execute a s)
    execute (conditional_action n a) s =
        let s' = execute a s in if get_or s.latches n false then s' else s
    execute (application n) s = app n s

    pub execute_each : Actions → State → State
    execute_each no_actions s = s
    execute_each (then_action a as') s = execute_each as' (execute a s)

  -- The loop of `ActionQueue::execute`, with fuel, as actions may push actions; `none` means that the
  -- fuel ran out.
  unfoldable pub execute_next : (State → Option State) → List Action → State → Option State
  unfolding execute
  execute_next rest [] s = some s
  execute_next rest (a ∷ as') s = rest (execute a (record s { queue = as' }))

  unfoldable pub execute_queue : ℕ → State → Option State
  unfolding execute_next
  execute_queue zero s = none
  execute_queue (suc n) s = let rest = execute_queue n in execute_next rest s.queue s
