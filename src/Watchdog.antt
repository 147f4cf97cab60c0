-- ===== src/Watchdog.antt =====
-- src/Werk/Threading/Watchdog.hpp: an action that runs when a latch is not reset for too long.
mod Hung
mod Tests
use werk.Prelude.{ℕ, ◌*◌, ◌%◌, Bool, true, false, not, ltb, ◌==◌, if◌then◌else◌}
use werk.Prelude.Words.{add_u64, u64_mod}

pub record Watchdog : Type 0 where
  pub interval : ℕ
  pub allowed_misses : ℕ
  pub last_time : ℕ
  pub misses : ℕ
  pub latch : Bool

unfoldable pub new_watchdog : ℕ → ℕ → Watchdog
new_watchdog interval allowed_misses = record {
  interval = interval;
  allowed_misses = allowed_misses;
  last_time = 0;
  misses = 0;
  latch = false;
}

-- `reset`, which the thread that is watched calls.
unfoldable pub reset : Watchdog → Watchdog
reset w = record w { latch = false }

-- `_lastTime + _interval * (_misses + 1)`
abbrev pub next_miss : Watchdog → ℕ
next_miss w = add_u64 w.last_time (w.interval * add_u64 w.misses 1 % u64_mod)

-- `execute` at a time of the clock: whether the action runs, and the watchdog.
unfoldable pub execute : ℕ → Watchdog → Bool × Watchdog
execute time w =
    if w.last_time == 0
    then (false, record w { last_time = time })
    else if not w.latch
    then (false, record w { latch = true; last_time = time; misses = 0 })
    else if ltb (next_miss w) time
    then (let misses = add_u64 w.misses 1 in
        (misses == add_u64 w.allowed_misses 1, record w { misses = misses }))
    else (false, w)
