-- ===== src/Scheduler/Runs.antt =====
-- How often a task that is due at `t` runs when the scheduler executes at `time`.
use native.Mathlib.Decide.{dec_lt}
use native.Mathlib.Nat.{div-eq_of_lt, div-eq-sub-div}
use werk.Prelude.{
  ap, ℕ, zero, suc, ◌+◌, ◌-◌, ◌/◌, ◌≤◌, ◌<◌, ◌≡◌, refl, [], ◌∷◌, min, arith, leb, ◌==◌,
  if◌then◌else◌,
}
use werk.Prelude.Int.{ℤ, pos, negsuc}
use werk.Prelude.Words.{u64_mod, add_u64}
use werk.Prelude.Multimap.{emplace}
use werk.Scheduler.{ScheduledTask, Tasks, count_down, is_nonzero, task_execute, reschedule}

-- The due times t, t + k, t + 2 * k, … that are not after `time`.
abbrev pub ticks : ℕ → ℕ → ℕ → ℕ
ticks time t k = if leb t time then (time - t) / k + 1 else 0

-- A count of n stops the task after n runs, a count of 0 after one, a negative count never.
abbrev pub runs : ℕ → ℕ → ℕ → ℤ → ℕ
runs time t k (pos zero) = if leb t time then 1 else 0
runs time t k (pos (suc n)) =
    if leb t time then (if k == 0 then suc n else min (suc n) (ticks time t k)) else 0
runs time t k (negsuc n) = ticks time t k

-- The runs of all tasks together, and those of one action.
abbrev pub total_runs : ℕ → Tasks → ℕ
total_runs time [] = 0
total_runs time ((t, k) ∷ m) = runs time t k.interval k.count + total_runs time m

abbrev pub runs_of : ℕ → ℕ → Tasks → ℕ
runs_of a time [] = 0
runs_of a time ((t, k) ∷ m) =
    (if k.action == a then runs time t k.interval k.count else 0) + runs_of a time m

-- A task that repeats for ever has an interval, and its next due time does not wrap.
abbrev pub Advances : ℕ → ℤ → Type 0
Advances k (pos n) = Unit
Advances k (negsuc n) = 0 < k

abbrev pub CanStop : ℕ → ScheduledTask → Type 0
CanStop time k = (time + k.interval < u64_mod) × Advances k.interval k.count

ticks-step : (time t k : ℕ) → 0 < k → t ≤ time → ticks time t k ≡ suc (ticks time (t + k) k)
ticks-step time t k h p = elim (dec_lt (time - t) k) [
  | yes q ↦ ground (arith, div-eq_of_lt q)
  | no q ↦ ground (arith, div-eq-sub-div {m = k} {n = time - t} h (omega arith), regroup)
]
  where
    regroup : (time - t - k) / k ≡ (time - (t + k)) / k
    regroup = ap (λ d. d / k) (omega arith)

runs-step :
    (time t k : ℕ) (c : ℤ)
    → t ≤ time
    → time + k < u64_mod
    → Advances k c
    → runs time t k c
      ≡ (if is_nonzero (count_down c) then suc (runs time (add_u64 t k) k (count_down c)) else 1)
unfolding is_nonzero count_down
runs-step time t k (pos zero) h w a = ground arith
runs-step time t k (pos (suc zero)) h w a = ground arith
runs-step time t k (pos (suc (suc n))) h w a =
    let no_wrap : add_u64 t k ≡ t + k = omega arith in
    rw no_wrap
      (elim (dec_lt 0 k) [ yes p ↦ ground (arith, ticks-step time t k p h) | no p ↦ ground arith ])
runs-step time t k (negsuc n) h w a = rw no_wrap (ticks-step time t k a h)
  where
    no_wrap : add_u64 t k ≡ t + k
    no_wrap = omega arith

total_runs-emplace :
    (time t : ℕ) (k : ScheduledTask) (m : Tasks)
    → total_runs time (emplace t k m) ≡ runs time t k.interval k.count + total_runs time m
unfolding emplace
total_runs-emplace time t k [] = refl
total_runs-emplace time t k ((u, j) ∷ m) = ground (arith, total_runs-emplace time t k m)

runs_of-emplace :
    (a time t : ℕ) (k : ScheduledTask) (m : Tasks)
    → runs_of a time (emplace t k m)
      ≡ (if k.action == a then runs time t k.interval k.count else 0) + runs_of a time m
unfolding emplace
runs_of-emplace a time t k [] = refl
runs_of-emplace a time t k ((u, j) ∷ m) = ground (arith, runs_of-emplace a time t k m)

-- A round of the loop takes one run off the task that is due.
pub total_runs-reschedule :
    (time t : ℕ) (k : ScheduledTask) (m : Tasks)
    → t ≤ time
    → CanStop time k
    → total_runs time ((t, k) ∷ m) ≡ suc (total_runs time (reschedule t (task_execute k) m))
unfolding reschedule task_execute
total_runs-reschedule time t k m h s = ground (
  arith,
  runs-step time t k.interval k.count h s.0 s.1,
  total_runs-emplace time (add_u64 t k.interval) (record k { count = count_down k.count }) m,
)

pub runs_of-reschedule :
    (a time t : ℕ) (k : ScheduledTask) (m : Tasks)
    → t ≤ time
    → CanStop time k
    → runs_of a time ((t, k) ∷ m)
      ≡ (if k.action == a then 1 else 0) + runs_of a time (reschedule t (task_execute k) m)
unfolding reschedule task_execute
runs_of-reschedule a time t k m h s = ground (
  arith,
  runs-step time t k.interval k.count h s.0 s.1,
  runs_of-emplace a time (add_u64 t k.interval) (record k { count = count_down k.count }) m,
)
