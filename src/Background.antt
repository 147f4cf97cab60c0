-- ===== src/Background.antt =====
-- src/Werk/Threading/BackgroundThread.{hpp,cpp}: a thread that executes its tasks in rounds. Its
-- steps, and those of the other threads, may come in any order; executing a task is one step.
pub mod Flush
pub mod Stop
mod Tests
use werk.Prelude.{ℕ, ◌+◌, Bool, true, false, List, [], ◌∷◌, ◌++◌, if◌then◌else◌}
use werk.Logging.{AsyncLog, Written, execute}
use werk.Logging.Order.{Call, call}

-- The task of the log, or another action, by name.
pub data Work : Type 0 where
  write_log : Work
  act : ℕ → Work

pub record BackgroundTask : Type 0 where
  pub work : Work
  pub active : Bool

-- Where the thread is: before a round, before the tasks that are left of a round (and then before
-- the test whether to go on), in its delay, or out of its loop.
pub data Stage : Type 0 where
  round asleep finished : Stage
  before : List BackgroundTask → Stage

-- `ran` is the trace of the other actions, the last one first.
pub record BackgroundThread : Type 0 where
  pub tasks : List BackgroundTask
  pub stage : Stage
  pub running : Bool
  pub log : AsyncLog
  pub written : List Written
  pub ran : List ℕ

-- `addTask`
unfoldable pub add_task : Work → BackgroundThread → BackgroundThread
add_task work b = record b { tasks = b.tasks ++ (record { work = work; active = true } ∷ []) }

-- `BackgroundTask::execute`, by whether the task is active and by its action
unfoldable pub do_work : Bool → Work → BackgroundThread → BackgroundThread
do_work false work b = b
do_work true write_log b =
    let (lines, log) = execute b.log in record b { log = log; written = b.written ++ lines }
do_work true (act n) b = record b { ran = n ∷ b.ran }

unfoldable pub execute_task : BackgroundTask → BackgroundThread → BackgroundThread
unfolding do_work
execute_task k b = do_work k.active k.work b

-- A step of `backgroundThread`.
unfoldable pub thread_step : Stage → BackgroundThread → BackgroundThread
unfolding execute_task
thread_step round b = record b { stage = before b.tasks }
thread_step (before (k ∷ ks)) b = record (execute_task k b) { stage = before ks }
thread_step (before []) b = record b { stage = if b.running then asleep else finished }
thread_step asleep b = record b { stage = round }
thread_step finished b = b

-- A step of the thread, a call of the log on another thread, or the store of `stop`.
pub data Event : Type 0 where
  thread : Event
  log_call : Call → Event
  request_stop : Event

unfoldable pub step : Event → BackgroundThread → BackgroundThread
unfolding thread_step
step thread b = thread_step b.stage b
step (log_call c) b = record b { log = call c b.log }
step request_stop b = record b { running = false }

unfoldable pub steps : List Event → BackgroundThread → BackgroundThread
unfolding step
steps [] b = b
steps (e ∷ es) b = steps es (step e b)
