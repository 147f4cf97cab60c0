-- ===== src/Scheduler/Execute.antt =====
-- `Scheduler::execute`: what runs, how often, in which order, and what is left.
use native.Mathlib.Decide.{dec_lt}
use native.Mathlib.Nat.{le_refl}
use werk.Prelude.{
  ℕ, zero, suc, ◌+◌, ◌≤◌, ◌<◌, ◌≡◌, refl, sym, ◌∙◌, ap, List, [], ◌∷◌, some, arith, All, Bool-cases,
  inl, inr, ◌==◌, if◌then◌else◌,
}
use werk.Prelude.Int.{ℤ, pos, negsuc}
use werk.Prelude.Words.{u64_mod, add_u64}
use werk.Prelude.Multimap.{emplace, Ascends, emplace-Ascends}
use werk.Scheduler.Runs.{
  runs, total_runs, runs_of, Advances, CanStop, total_runs-reschedule, runs_of-reschedule,
}
use werk.Scheduler.{
  ScheduledTask, Tasks, count_down, is_nonzero, task_execute, reschedule, execute_loop,
}

-- How often an action stands in a trace.
abbrev pub count_of : ℕ → List (ℕ × ℕ) → ℕ
count_of a [] = 0
count_of a ((t, b) ∷ trace) = (if b == a then 1 else 0) + count_of a trace

abbrev pub AllCanStop : ℕ → Tasks → Type 0
AllCanStop time = All (λ e. CanStop time e.1)

-- A run from `tasks` to `tasks'`, with its trace.
pub record Executed (lo time : ℕ) (tasks tasks' : Tasks) (trace : List (ℕ × ℕ)) : Type 0 where
  pub later : Ascends (suc time) tasks'
  pub ordered : Ascends lo trace
  pub due : All (λ e. e.0 ≤ time) trace
  pub each : (a : ℕ) → count_of a trace ≡ runs_of a time tasks

All-emplace :
    (P : ℕ × ScheduledTask → Type 0) (t : ℕ) (k : ScheduledTask) (m : Tasks)
    → P (t, k)
    → All P m
    → All P (emplace t k m)
unfolding emplace
All-emplace P t k [] p h = (p, tt)
All-emplace P t k ((u, j) ∷ m) p h = ground (arith, All-emplace P t k m p h.1)

count_down-Advances : (k : ℕ) (c : ℤ) → Advances k c → Advances k (count_down c)
unfolding count_down
count_down-Advances k (pos zero) a = tt
count_down-Advances k (pos (suc n)) a = tt
count_down-Advances k (negsuc n) a = a

pub reschedule-AllCanStop :
    (time t : ℕ) (k : ScheduledTask) (m : Tasks)
    → AllCanStop time ((t, k) ∷ m)
    → AllCanStop time (reschedule t (task_execute k) m)
unfolding reschedule task_execute
reschedule-AllCanStop time t k m h =
    let k' : ScheduledTask = record k { count = count_down k.count } in
    elim (Bool-cases (is_nonzero (count_down k.count))) [
      | inl e ↦ rw e (
          All-emplace _ (add_u64 t k.interval) k' m
            (h.0.0, count_down-Advances k.interval k.count h.0.1) h.1)
      | inr e ↦ rw e h.1
    ]

pub reschedule-Ascends :
    (time t : ℕ) (k : ScheduledTask) (m : Tasks)
    → t ≤ time
    → time + k.interval < u64_mod
    → Ascends t m
    → Ascends t (reschedule t (task_execute k) m)
unfolding reschedule task_execute
reschedule-Ascends time t k m h w s =
    let k' : ScheduledTask = record k { count = count_down k.count } in
    elim (Bool-cases (is_nonzero (count_down k.count))) [
      | inl e ↦ rw e (emplace-Ascends t (add_u64 t k.interval) k' m (omega arith) s)
      | inr e ↦ rw e s
    ]

-- Nothing runs before it is due.
not_yet : (time t k : ℕ) (c : ℤ) → time < t → runs time t k c ≡ 0
not_yet time t k (pos zero) h = ground arith
not_yet time t k (pos (suc n)) h = ground arith
not_yet time t k (negsuc n) h = ground arith

not_due : (a time lo : ℕ) (m : Tasks) → time < lo → Ascends lo m → runs_of a time m ≡ 0
not_due a time lo [] h s = refl
not_due a time lo ((t, k) ∷ m) h s =
    ground (arith, not_yet time t k.interval k.count, not_due a time t m)

stops :
    (fuel time t : ℕ) (k : ScheduledTask) (m : Tasks)
    → time < t
    → execute_loop (suc fuel) time ((t, k) ∷ m) ≡ some ((t, k) ∷ m, [])
unfolding execute_loop
stops fuel time t k m h = ground arith

goes_on :
    (fuel time t : ℕ) (k : ScheduledTask) (m tasks' : Tasks) (trace : List (ℕ × ℕ))
    → t ≤ time
    → execute_loop fuel time (reschedule t (task_execute k) m) ≡ some (tasks', trace)
    → execute_loop (suc fuel) time ((t, k) ∷ m) ≡ some (tasks', (t, k.action) ∷ trace)
unfolding execute_loop
goes_on fuel time t k m tasks' trace h e = ground arith

-- For a time and tasks in order of their due times, where each interval added to the time fits into
-- a word, and the endless tasks, those of a negative count, have an interval above 0: with fuel
-- above the number of runs due, the loop of the scheduler ends, leaves only tasks that are due
-- later, has run each action exactly as often as its tasks were due, and in the order of the due
-- times, none later than the time.
pub execute_loop_lem :
    (fuel lo time : ℕ) (tasks : Tasks)
    → total_runs time tasks < fuel
    → Ascends lo tasks
    → AllCanStop time tasks
    → (tasks' : Tasks) × (trace : List (ℕ × ℕ)) × (execute_loop fuel time tasks
        ≡ some (tasks', trace))
      × Executed lo time tasks tasks' trace
execute_loop_lem zero lo time tasks f s c = elim f [ ]
execute_loop_lem (suc fuel) lo time [] f s c = (
  [],
  [],
  unfold execute_loop in refl,
  record { later = tt; ordered = tt; due = tt; each = λ a. refl },
)
execute_loop_lem (suc fuel) lo time ((t, k) ∷ m) f s c = elim (dec_lt time t) [
  | yes e ↦ (
    (t, k) ∷ m,
    [],
    stops fuel time t k m e,
    record {
      later = (e, s.1);
      ordered = tt;
      due = tt;
      each = λ a. sym (not_due a time t ((t, k) ∷ m) e (le_refl t, s.1));
    },
  )
  | no e ↦
      let ready : t ≤ time = omega arith in
      let (tasks', trace, ran, x) =
        execute_loop_lem fuel t time (reschedule t (task_execute k) m)
          (omega (arith, total_runs-reschedule time t k m ready c.0))
          (reschedule-Ascends time t k m ready c.0.0 s.1) (reschedule-AllCanStop time t k m c) in
      (
        tasks',
        (t, k.action) ∷ trace,
        goes_on fuel time t k m tasks' trace ready ran,
        record {
          later = x.later;
          ordered = (s.0, x.ordered);
          due = (ready, x.due);
          each = λ a.
              ap (λ n. (if k.action == a then 1 else 0) + n) (x.each a)
              ∙ sym (runs_of-reschedule a time t k m ready c.0);
        },
      )
]
