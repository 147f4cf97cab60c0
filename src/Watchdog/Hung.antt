-- ===== src/Watchdog/Hung.antt =====
-- When the action of a watchdog runs.
use werk.Prelude.{
  ℕ, suc, ◌+◌, ◌*◌, ◌%◌, ◌≤◌, ◌<◌, ◌≡◌, refl, sym, ap, ◌∙◌, subst, true, false, List, [], ◌∷◌, ◌++◌,
  arith, ◌==◌, if◌then◌else◌, if-true, if-false, length, All, length-append,
}
use native.Mathlib.Decide.{dec_lt}
use werk.Prelude.Words.{add_u64, u64_mod}
use werk.Watchdog.{Watchdog, reset, next_miss, execute}

-- The times at which the action runs, when nothing resets the watchdog.
abbrev pub alarms : List ℕ → Watchdog → List ℕ
alarms [] w = []
alarms (time ∷ times) w =
    let (ran, w') = execute time w in
    let later = alarms times w' in if ran then time ∷ later else later

-- A watchdog that has been set at a time and has missed some resets since.
abbrev pub set_watchdog : ℕ → ℕ → ℕ → ℕ → Watchdog
set_watchdog interval allowed last misses = record {
  interval = interval;
  allowed_misses = allowed;
  last_time = last;
  misses = misses;
  latch = true;
}

-- The time behind which no more misses are allowed, as a number that does not wrap.
pub record IsArmed (interval allowed last : ℕ) : Type 0 where
  pub started : 1 ≤ last
  pub fits : last + interval * suc allowed < u64_mod
  pub small : allowed + 1 < u64_mod

module _ (interval allowed last : ℕ) (h : IsArmed interval allowed last) where
  product_mono : (m : ℕ) → m ≤ allowed → interval * suc m ≤ interval * suc allowed
  product_mono m le = grind arith

  add_one : (m : ℕ) → m ≤ allowed → add_u64 m 1 ≡ suc m
  add_one m le = omega (arith, h.small)

  next_miss-set :
      (m : ℕ)
      → m ≤ allowed
      → next_miss (set_watchdog interval allowed last m) ≡ last + interval * suc m
  next_miss-set m le =
      ap (λ k. add_u64 last (interval * k % u64_mod)) (add_one m le)
      ∙ omega (arith, product_mono m le, h.fits)

  execute-early :
      (m t : ℕ)
      → m ≤ allowed
      → t ≤ last + interval * suc m
      → execute t (set_watchdog interval allowed last m)
        ≡ (false, set_watchdog interval allowed last m)
  unfolding execute
  execute-early m t le early = ground (arith, next_miss-set m le, h.started)

  execute-miss :
      (m t : ℕ)
      → m ≤ allowed
      → last + interval * suc m < t
      → execute t (set_watchdog interval allowed last m)
        ≡ (suc m == suc allowed, set_watchdog interval allowed last (suc m))
  unfolding execute
  execute-miss m t le late =
      ground (arith, next_miss-set m le, h.started, add_one m le, add_one allowed (omega arith))

  -- One alarm, behind the time that is allowed.
  abbrev pub Alarm : List ℕ → Type 0
  Alarm times = (t : ℕ) × (times ≡ t ∷ []) × (last + interval * suc allowed < t)

  -- Behind its alarm a watchdog stays silent, until its count wraps.
  alarms-behind :
      (m : ℕ) (times : List ℕ)
      → allowed < m
      → m + length times < u64_mod
      → alarms times (set_watchdog interval allowed last m) ≡ []
  unfolding execute
  alarms-behind m [] lt bound = refl
  alarms-behind m (t ∷ ts) lt bound = ground (
    arith,
    h.started,
    h.small,
    alarms-behind m ts lt (omega arith),
    alarms-behind (suc m) ts (omega arith) (omega arith),
  )

  alarms-early :
      (m t : ℕ) (ts : List ℕ)
      → m ≤ allowed
      → t ≤ last + interval * suc m
      → alarms (t ∷ ts) (set_watchdog interval allowed last m)
        ≡ alarms ts (set_watchdog interval allowed last m)
  alarms-early m t ts le early =
      ap (λ r. if r.0 then t ∷ alarms ts r.1 else alarms ts r.1) (execute-early m t le early)

  alarms-miss :
      (m t : ℕ) (ts : List ℕ)
      → m < allowed
      → last + interval * suc m < t
      → alarms (t ∷ ts) (set_watchdog interval allowed last m)
        ≡ alarms ts (set_watchdog interval allowed last (suc m))
  alarms-miss m t ts lt late =
      ap (λ r. if r.0 then t ∷ alarms ts r.1 else alarms ts r.1)
        (execute-miss m t (omega arith) late)
      ∙ if-false (suc m == suc allowed) _ _ (ground arith)

  alarms-last :
      (t : ℕ) (ts : List ℕ)
      → last + interval * suc allowed < t
      → allowed + suc (length ts) < u64_mod
      → Alarm (alarms (t ∷ ts) (set_watchdog interval allowed last allowed))
  alarms-last t ts late bound = (
    t,
    ap (λ r. if r.0 then t ∷ alarms ts r.1 else alarms ts r.1)
          (execute-miss allowed t (omega arith) late)
        ∙ if-true (suc allowed == suc allowed) _ _ (ground arith)
        ∙ ap (λ us. t ∷ us) (alarms-behind (suc allowed) ts (omega arith) (omega arith)),
    late,
  )

  alarms-at_last :
      (m t : ℕ) (ts : List ℕ)
      → m ≤ allowed
      → ¬ (m < allowed)
      → last + interval * suc m < t
      → allowed + suc (length ts) < u64_mod
      → Alarm (alarms (t ∷ ts) (set_watchdog interval allowed last m))
  alarms-at_last m t ts le ge late bound =
      let same : allowed ≡ m = omega (arith, le, ge) in
      subst
        (λ k.
          last + interval * suc k < t
          → Alarm (alarms (t ∷ ts) (set_watchdog interval allowed last k)))
        same (λ late'. alarms-last t ts late' bound) late

  alarms-late :
      (m : ℕ) (late : List ℕ)
      → m ≤ allowed
      → allowed < m + length late
      → allowed + suc (length late) < u64_mod
      → All (λ t. last + interval * suc allowed < t) late
      → Alarm (alarms late (set_watchdog interval allowed last m))
  alarms-late m [] le enough bound hs = absurd (enough_lem m le enough)
    where
      enough_lem : (m : ℕ) → m ≤ allowed → ¬ (allowed < m + 0)
      enough_lem m le lt = omega (arith, le, lt)
  alarms-late m (t ∷ ts) le enough bound hs =
      let missed : last + interval * suc m < t = omega (arith, product_mono m le, hs.0) in
      elim (dec_lt m allowed) [
        | yes lt ↦
            subst Alarm (sym (alarms-miss m t ts lt missed))
              (alarms-late (suc m) ts (omega arith) (omega arith) (omega arith) hs.1)
        | no ge ↦ alarms-at_last m t ts le ge missed (omega arith)
      ]

  alarms-hung :
      (m : ℕ) (times late : List ℕ)
      → m ≤ allowed
      → suc allowed ≤ length late
      → allowed + suc (length times + length late) < u64_mod
      → All (λ t. last + interval * suc allowed < t) late
      → Alarm (alarms (times ++ late) (set_watchdog interval allowed last m))
  alarms-hung m [] late le enough bound hs = alarms-late m late le (omega arith) (omega arith) hs
  alarms-hung m (t ∷ ts) late le enough bound hs = elim (dec_lt (last + interval * suc m) t) [
    | no early ↦
        subst Alarm (sym (alarms-early m t (ts ++ late) le (omega (arith, early))))
          (alarms-hung m ts late le enough (omega arith) hs)
    | yes missed ↦ elim (dec_lt m allowed) [
      | yes lt ↦
          subst Alarm (sym (alarms-miss m t (ts ++ late) lt missed))
            (alarms-hung (suc m) ts late (omega arith) enough (omega arith) hs)
      | no ge ↦ alarms-at_last m t (ts ++ late) le ge missed (omega (arith, length-append ts late))
    ]
  ]

-- A started watchdog that finds its latch reset at a time that is not 0, and is not reset again,
-- where that time with the interval for each allowed miss and once more is a word: if it is
-- executed more often than the allowed misses behind that sum, all times there being late, and the
-- executions and allowed misses together are fewer than 2^64, its action runs exactly once, and at
-- a time behind that sum.
pub alarms-once :
    (interval allowed last misses start : ℕ) (times late : List ℕ)
    → 1 ≤ last
    → IsArmed interval allowed start
    → suc allowed ≤ length late
    → allowed + suc (length times + length late) < u64_mod
    → All (λ t. start + interval * suc allowed < t) late
    → (t : ℕ) × (alarms
          (start ∷ (times ++ late))
          (reset (set_watchdog interval allowed last misses))
        ≡ t ∷ [])
      × (start + interval * suc allowed < t)
unfolding execute reset
alarms-once interval allowed last misses start times late started h enough bound hs =
    let alarm = alarms-hung interval allowed start h 0 times late (omega arith) enough bound hs in
    (alarm.0, found ∙ alarm.1, alarm.2)
  where
    found :
        alarms (start ∷ (times ++ late)) (reset (set_watchdog interval allowed last misses))
        ≡ alarms (times ++ late) (set_watchdog interval allowed start 0)
    found = ground (arith, started)
