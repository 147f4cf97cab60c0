-- ===== src/Scheduler/Tests.antt =====
-- The theorems at concrete schedules, and a run.
use werk.Prelude.{ℕ, ◌≡◌, refl, List, [], ◌∷◌, some, none, inl, arith}
use werk.Prelude.Int.{pos, negsuc}
use werk.Prelude.Multimap.{emplace}
use werk.Scheduler.Execute.{Executed, execute_loop_lem}
use werk.Scheduler.Forever.{stuck, execute_loop-stuck}
use werk.Scheduler.{Tasks, schedule, task_execute, reschedule, execute_loop}

-- Action 7 every 10 from 5 on, for ever; action 8 at 12 and every 100, three times.
abbrev two_tasks : Tasks
two_tasks =
    (5, record { action = 7; interval = 10; count = negsuc 0 })
    ∷ (12, record { action = 8; interval = 100; count = pos 3 })
    ∷ []

scheduled : schedule 8 12 100 (pos 3) (schedule 7 5 10 (negsuc 0) []) ≡ two_tasks
unfolding schedule emplace
scheduled = refl

run_until_30 :
    execute_loop 5 30 two_tasks
    ≡ some (
      (35, record { action = 7; interval = 10; count = negsuc 0 })
          ∷ (112, record { action = 8; interval = 100; count = pos 2 })
          ∷ [],
      (5, 7) ∷ (12, 8) ∷ (15, 7) ∷ (25, 7) ∷ [],
    )
unfolding execute_loop reschedule task_execute emplace
run_until_30 = refl

execute_loop_lem_example :
    (tasks' : Tasks) × (trace : List (ℕ × ℕ)) × (execute_loop 5 30 two_tasks ≡ some (tasks', trace))
    × Executed 5 30 two_tasks tasks' trace
execute_loop_lem_example =
    execute_loop_lem 5 5 30 two_tasks (omega arith) (omega arith) (omega arith)

execute_loop-stuck_example : execute_loop 1000 30 ((20, stuck 7 0) ∷ []) ≡ none
execute_loop-stuck_example =
    execute_loop-stuck 1000 30 20 7 0 ((20, stuck 7 0) ∷ []) (omega arith) (omega arith)
      (omega arith) (inl refl)
