-- ===== src/Scheduler.antt =====
-- src/Werk/Threading/Scheduler.hpp. An action is its name; running it is an entry of the trace, beside
-- the time at which it was due. Actions do not reach the scheduler that runs them.
pub mod Runs
pub mod Execute
pub mod Forever
mod Tests
use werk.Prelude.{
  ℕ, zero, suc, List, [], ◌∷◌, Option, none, some, Bool, true, false, ltb, if◌then◌else◌,
}
use werk.Prelude.Int.{ℤ, pos, negsuc}
use werk.Prelude.Words.{add_u64}
use werk.Prelude.Multimap.{emplace}

pub record ScheduledTask : Type 0 where
  pub action : ℕ
  pub interval : ℕ
  pub count : ℤ

abbrev pub Tasks : Type 0
Tasks = List (ℕ × ScheduledTask)

-- `if (_count > 0) _count -= 1;`
unfoldable pub count_down : ℤ → ℤ
count_down (pos zero) = pos zero
count_down (pos (suc n)) = pos n
count_down (negsuc n) = negsuc n

unfoldable pub is_nonzero : ℤ → Bool
is_nonzero (pos zero) = false
is_nonzero (pos (suc n)) = true
is_nonzero (negsuc n) = true

-- The task after its action has run.
unfoldable pub task_execute : ScheduledTask → ScheduledTask
unfolding count_down
task_execute k = record k { count = count_down k.count }

unfoldable pub task_repeat : ScheduledTask → Bool
unfolding is_nonzero
task_repeat k = is_nonzero k.count

unfoldable pub schedule : ℕ → ℕ → ℕ → ℤ → Tasks → Tasks
schedule action time interval count tasks =
    emplace time (record { action = action; interval = interval; count = count }) tasks

-- Behind a run: the task is moved forward in time, or deleted.
unfoldable pub reschedule : ℕ → ScheduledTask → Tasks → Tasks
unfolding task_repeat
reschedule next_time task tasks =
    if task_repeat task then emplace (add_u64 next_time task.interval) task tasks else tasks

-- The loop of `Scheduler::execute`, with fuel; `none` means that the fuel ran out. The trace is
-- the actions run, with the times at which they were due.
unfoldable pub execute_loop : ℕ → ℕ → Tasks → Option (Tasks × List (ℕ × ℕ))
execute_loop zero time tasks = none
execute_loop (suc fuel) time [] = some ([], [])
execute_loop (suc fuel) time ((next_time, task) ∷ rest) = elim (ltb time next_time) [
  | true ↦ some ((next_time, task) ∷ rest, [])
  | false ↦ elim (execute_loop fuel time (reschedule next_time (task_execute task) rest)) [
    | none ↦ none
    | some (tasks, trace) ↦ some (tasks, (next_time, task.action) ∷ trace)
  ]
]
