-- ===== src/Scheduler/Forever.antt =====
-- A due task with no interval and no limit: the loop of `Scheduler::execute` never ends.
use werk.Prelude.{
  ℕ, zero, suc, ◌≤◌, ◌<◌, ◌≡◌, refl, subst, [], ◌∷◌, none, ◌⊎◌, inl, inr, arith, Bool-cases, ltb,
}
use werk.Prelude.Int.{negsuc}
use werk.Prelude.Words.{u64_mod, add_u64}
use werk.Prelude.Multimap.{emplace, Ascends, Ascends-weaken, emplace-Ascends}
use werk.Scheduler.{ScheduledTask, Tasks, task_execute, task_repeat, reschedule, execute_loop}

abbrev pub Has : ℕ × ScheduledTask → Tasks → Type 0
Has x [] = ⊥
Has x (y ∷ m) = (x ≡ y) ⊎ Has x m

Has-ge : (lo t : ℕ) (k : ScheduledTask) (m : Tasks) → Ascends lo m → Has (t, k) m → lo ≤ t
Has-ge lo t k [] s h = absurd h
Has-ge lo t k ((u, j) ∷ m) s (inl e) = ground arith
Has-ge lo t k ((u, j) ∷ m) s (inr h) = omega (arith, Has-ge u t k m s.1 h)

Has-emplace_self : (t : ℕ) (k : ScheduledTask) (m : Tasks) → Has (t, k) (emplace t k m)
unfolding emplace
Has-emplace_self t k [] = inl refl
Has-emplace_self t k ((u, j) ∷ m) = elim (Bool-cases (ltb t u)) [
  | inl e ↦ rw e (inl refl)
  | inr e ↦ rw e (inr (Has-emplace_self t k m))
]

Has-emplace :
    (x : ℕ × ScheduledTask) (t : ℕ) (k : ScheduledTask) (m : Tasks)
    → Has x m
    → Has x (emplace t k m)
unfolding emplace
Has-emplace x t k [] h = absurd h
Has-emplace x t k ((u, j) ∷ m) (inl h) = elim (Bool-cases (ltb t u)) [
  | inl e ↦ rw e (inr (inl h))
  | inr e ↦ rw e (inl h)
]
Has-emplace x t k ((u, j) ∷ m) (inr h) = elim (Bool-cases (ltb t u)) [
  | inl e ↦ rw e (inr (inr h))
  | inr e ↦ rw e (inr (Has-emplace x t k m h))
]

Has-reschedule :
    (x : ℕ × ScheduledTask) (t : ℕ) (k : ScheduledTask) (m : Tasks)
    → Has x m
    → Has x (reschedule t k m)
unfolding reschedule
Has-reschedule x t k m h = elim (Bool-cases (task_repeat k)) [
  | inl e ↦ rw e (Has-emplace x (add_u64 t k.interval) k m h)
  | inr e ↦ rw e h
]

reschedule-Ascends :
    (t : ℕ) (k : ScheduledTask) (m : Tasks) → Ascends 0 m → Ascends 0 (reschedule t k m)
unfolding reschedule
reschedule-Ascends t k m s = elim (Bool-cases (task_repeat k)) [
  | inl e ↦ rw e (emplace-Ascends 0 (add_u64 t k.interval) k m (omega arith) s)
  | inr e ↦ rw e s
]

-- An endless task with interval 0.
abbrev pub stuck : ℕ → ℕ → ScheduledTask
stuck action n = record { action = action; interval = 0; count = negsuc n }

Has-reschedule-stuck :
    (t a n : ℕ) (m : Tasks)
    → t < u64_mod
    → Has (t, stuck a n) (reschedule t (task_execute (stuck a n)) m)
unfolding reschedule task_execute
Has-reschedule-stuck t a n m w =
    let same : add_u64 t 0 ≡ t = omega arith in rw same (Has-emplace_self t (stuck a n) m)

round_Has :
    (t a n u : ℕ) (k : ScheduledTask) (m : Tasks)
    → t < u64_mod
    → Has (t, stuck a n) ((u, k) ∷ m)
    → Has (t, stuck a n) (reschedule u (task_execute k) m)
round_Has t a n u k m w (inl e) =
    subst (λ (x : ℕ × ScheduledTask). Has (t, stuck a n) (reschedule x.0 (task_execute x.1) m)) e
      (Has-reschedule-stuck t a n m w)
round_Has t a n u k m w (inr h) = Has-reschedule (t, stuck a n) u (task_execute k) m h

-- Once an endless task with interval 0 is due, `execute` never gets past it, whatever else is
-- scheduled: no amount of fuel is enough.
pub execute_loop-stuck :
    (fuel time t a n : ℕ) (tasks : Tasks)
    → t ≤ time
    → t < u64_mod
    → Ascends 0 tasks
    → Has (t, stuck a n) tasks
    → execute_loop fuel time tasks ≡ none
unfolding execute_loop
execute_loop-stuck zero time t a n tasks d w s h = refl
execute_loop-stuck (suc fuel) time t a n [] d w s h = absurd h
execute_loop-stuck (suc fuel) time t a n ((u, k) ∷ m) d w s h = ground (
  arith,
  Has-ge u t (stuck a n) ((u, k) ∷ m) (omega arith, s.1) h,
  execute_loop-stuck fuel time t a n (reschedule u (task_execute k) m) d w
      (reschedule-Ascends u (task_execute k) m (Ascends-weaken 0 u m (omega arith) s.1))
      (round_Has t a n u k m w h),
)
