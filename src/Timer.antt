-- ===== src/Timer.antt =====
-- src/Werk/Threading/Timer.hpp: an action that runs regularly, up to a number of times.
mod Spaced
mod Prompt
mod Tests
use werk.Prelude.{ℕ, Bool, true, false, List, [], ◌∷◌, leb, ◌==◌, if◌then◌else◌}
use werk.Prelude.Int.{ℤ, pos, negsuc}
use werk.Prelude.Words.{add_u64}
use werk.Scheduler.{count_down, is_nonzero}

pub record Timer : Type 0 where
  pub interval : ℕ
  pub last_time : ℕ
  pub count : ℤ

unfoldable pub new_timer : ℕ → ℤ → Timer
new_timer interval count = record { interval = interval; last_time = 0; count = count }

unfoldable pub set_count : ℤ → Timer → Timer
set_count count t = record t { count = count }

-- `execute` at a time of the clock: whether the action runs, and the timer.
unfoldable pub execute : ℕ → Timer → Bool × Timer
unfolding is_nonzero count_down
execute time t =
    if is_nonzero t.count
    then (if t.last_time == 0
        then (false, record t { last_time = time })
        else (if leb (add_u64 t.last_time t.interval) time
            then (true, record t { last_time = time; count = count_down t.count })
            else (false, t)))
    else (false, t)

-- The times of a list at which the action runs, when the timer is executed at each of them.
unfoldable pub runs : List ℕ → Timer → List ℕ
unfolding execute
runs [] t = []
runs (time ∷ times) t =
    let (ran, t') = execute time t in
    let later = runs times t' in if ran then time ∷ later else later
