-- ===== src/Timer/Prompt.antt =====
-- A timer that is executed often enough does not fall behind.
use werk.Prelude.{ℕ, suc, ◌+◌, ◌*◌, ◌≤◌, ◌<◌, ◌≡◌, sym, subst, List, [], ◌∷◌, arith, length, All}
use native.Mathlib.Decide.{dec_lt}
use werk.Prelude.Int.{negsuc}
use werk.Scheduler.{count_down, is_nonzero}
use werk.Timer.{Timer, execute, runs}
use werk.Timer.Spaced.{IsTime}

-- Times that go forward from a time by no more than a gap.
abbrev pub Steps : ℕ → ℕ → List ℕ → Type 0
Steps gap prev [] = Unit
Steps gap prev (t ∷ ts) = (prev ≤ t) × (t ≤ prev + gap) × Steps gap t ts

abbrev pub last_of_times : ℕ → List ℕ → ℕ
last_of_times t [] = t
last_of_times t (u ∷ us) = last_of_times u us

abbrev pub endless : ℕ → ℕ → ℕ → Timer
endless interval last n = record { interval = interval; last_time = last; count = negsuc n }

runs-run :
    (interval last n t : ℕ) (ts : List ℕ)
    → IsTime interval last
    → last + interval ≤ t
    → runs (t ∷ ts) (endless interval last n) ≡ t ∷ runs ts (endless interval t n)
unfolding runs execute count_down is_nonzero
runs-run interval last n t ts h le = ground arith

runs-wait :
    (interval last n t : ℕ) (ts : List ℕ)
    → IsTime interval last
    → t < last + interval
    → runs (t ∷ ts) (endless interval last n) ≡ runs ts (endless interval last n)
unfolding runs execute count_down is_nonzero
runs-wait interval last n t ts h lt = ground arith

one_more : (l k : ℕ) → suc l * k ≡ l * k + k
one_more l k = grind arith

-- From a time on at which an endless timer has started or run, and through times that go forward by
-- no more than a gap, all of them not 0 and with room in a word for the interval: a run comes at
-- least once in each interval and gap, so that the last of the times is less than one more interval
-- behind them.
pub runs-prompt :
    (interval gap n last prev : ℕ) (times : List ℕ)
    → IsTime interval last
    → last ≤ prev
    → prev < last + interval
    → Steps gap prev times
    → All (IsTime interval) times
    → last_of_times prev times
      < last + length (runs times (endless interval last n)) * (interval + gap) + interval
unfolding runs
runs-prompt interval gap n last prev [] h lo hi s hs = omega arith
runs-prompt interval gap n last prev (t ∷ ts) h lo hi s hs = elim (dec_lt t (last + interval)) [
  | yes lt ↦
      subst (Within last (t ∷ ts)) (sym (runs-wait interval last n t ts h lt))
        (runs-prompt interval gap n last t ts h (omega (arith, s.0)) lt s.2 hs.1)
  | no ge ↦
      subst (Within last (t ∷ ts)) (sym (runs-run interval last n t ts h (omega (arith, ge)))) (
        omega (
          arith,
          one_more (length (runs ts (endless interval t n))) (interval + gap),
          s.1,
          runs-prompt interval gap n t t ts hs.0 (omega arith) (omega (arith, h.0, lo, hi)) s.2
              hs.1,
        ))
]
  where
    Within : ℕ → List ℕ → List ℕ → Type 0
    Within l us rs = last_of_times prev us < l + length rs * (interval + gap) + interval
