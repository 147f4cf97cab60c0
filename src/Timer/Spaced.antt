-- ===== src/Timer/Spaced.antt =====
-- The runs of a timer are apart, and no more than its count.
use werk.Prelude.{
  ℕ, zero, suc, ◌+◌, ◌≤◌, ◌<◌, ◌≡◌, refl, sym, subst, List, [], ◌∷◌, arith, length, All,
}
use werk.Prelude.Int.{ℤ, pos, negsuc}
use werk.Prelude.Words.{u64_mod}
use werk.Scheduler.{count_down, is_nonzero}
use werk.Timer.{new_timer, execute, runs}

-- Times that follow each other by at least an interval, the first of them behind a time.
abbrev pub IsSpaced : ℕ → ℕ → List ℕ → Type 0
IsSpaced interval last [] = Unit
IsSpaced interval last (t ∷ ts) = (last + interval ≤ t) × IsSpaced interval t ts

-- Times that are not 0 and leave room for the interval.
abbrev pub IsTime : ℕ → ℕ → Type 0
IsTime interval t = (1 ≤ t) × (t + interval < u64_mod)

-- A started timer.
runs-started :
    (interval last : ℕ) (count : ℤ) (times : List ℕ)
    → IsTime interval last
    → All (IsTime interval) times
    → IsSpaced interval last
        (runs times (record { interval = interval; last_time = last; count = count }))
unfolding runs execute
runs-started interval last count [] h hs = tt
runs-started interval last count (t ∷ ts) h hs = ground (
  arith,
  runs-started interval last count ts h hs.1,
  runs-started interval t (count_down count) ts hs.0 hs.1,
)

-- A count that is not negative limits the runs.
abbrev pub Allows : ℤ → ℕ → Type 0
Allows (pos n) m = m ≤ n
Allows (negsuc n) m = Unit

runs-Allows :
    (interval last : ℕ) (count : ℤ) (times : List ℕ)
    → Allows count
        (length (runs times (record { interval = interval; last_time = last; count = count })))
unfolding runs execute is_nonzero count_down
runs-Allows interval last (negsuc n) times = tt
runs-Allows interval last (pos n) [] = omega arith
runs-Allows interval last (pos zero) (t ∷ ts) = runs-Allows interval last (pos zero) ts
runs-Allows interval last (pos (suc n)) (t ∷ ts) = ground (
  arith,
  runs-Allows interval t (pos (suc n)) ts,
  runs-Allows interval t (pos n) ts,
  runs-Allows interval last (pos (suc n)) ts,
)

runs-spent :
    (interval last : ℕ) (times : List ℕ)
    → runs times (record { interval = interval; last_time = last; count = pos zero }) ≡ []
unfolding runs execute is_nonzero
runs-spent interval last [] = refl
runs-spent interval last (t ∷ ts) = runs-spent interval last ts

-- A new timer that is executed at times of a clock, which are not 0 and to each of which its
-- interval can be added in a word, first waits for the interval from its first execution on, and
-- then from one run to the next; a count that is not negative limits the runs.
pub runs-IsSpaced :
    (interval : ℕ) (count : ℤ) (start : ℕ) (times : List ℕ)
    → IsTime interval start
    → All (IsTime interval) times
    → IsSpaced interval start (runs (start ∷ times) (new_timer interval count))
      × Allows count (length (runs (start ∷ times) (new_timer interval count)))
unfolding runs execute new_timer is_nonzero
runs-IsSpaced interval (pos zero) start times h hs = (
  subst (IsSpaced interval start) (sym (runs-spent interval 0 times)) tt,
  runs-Allows interval 0 (pos zero) (start ∷ times),
)
runs-IsSpaced interval (pos (suc n)) start times h hs = (
  runs-started interval start (pos (suc n)) times h hs,
  runs-Allows interval 0 (pos (suc n)) (start ∷ times),
)
runs-IsSpaced interval (negsuc n) start times h hs =
    (runs-started interval start (negsuc n) times h hs, tt)
