-- ===== src/Watchdog/Tests.antt =====
-- A watchdog that allows one miss.
use werk.Prelude.{ℕ, ◌<◌, ◌≡◌, refl, [], ◌∷◌, arith}
use werk.Watchdog.{new_watchdog, reset, execute}
use werk.Watchdog.Hung.{alarms, set_watchdog, alarms-once}

test_alarms : alarms (10 ∷ 20 ∷ 30 ∷ 31 ∷ 32 ∷ 41 ∷ 50 ∷ 60 ∷ []) (new_watchdog 10 1) ≡ 41 ∷ []
unfolding execute new_watchdog
test_alarms = refl

alarms-once_example :
    (t : ℕ) × (alarms (20 ∷ 25 ∷ 31 ∷ 50 ∷ 60 ∷ 90 ∷ []) (reset (set_watchdog 10 1 15 0)) ≡ t ∷ [])
    × (40 < t)
alarms-once_example =
    alarms-once 10 1 15 0 20 (25 ∷ 31 ∷ []) (50 ∷ 60 ∷ 90 ∷ []) (omega arith)
      (record { started = omega arith; fits = omega arith; small = omega arith }) (omega arith)
      (omega arith) (omega arith)
