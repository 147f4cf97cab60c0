-- ===== src/Timer/Tests.antt =====
-- Timers as src/WerkTest/Threading/Timer.cpp uses them.
use werk.Prelude.{ℕ, ◌+◌, ◌*◌, ◌<◌, ◌≡◌, refl, List, [], ◌∷◌, arith, length}
use werk.Prelude.Int.{pos}
use werk.Timer.{new_timer, execute, runs}
use werk.Timer.Spaced.{IsSpaced, Allows, runs-IsSpaced}
use werk.Timer.Prompt.{endless, runs-prompt}

abbrev times : List ℕ
times = 150 ∷ 199 ∷ 200 ∷ 310 ∷ 400 ∷ 450 ∷ []

test_runs : runs (100 ∷ times) (new_timer 100 (pos 2)) ≡ 200 ∷ 310 ∷ []
unfolding runs execute new_timer
test_runs = refl

runs-IsSpaced_example :
    IsSpaced 100 100 (runs (100 ∷ times) (new_timer 100 (pos 2)))
    × Allows (pos 2) (length (runs (100 ∷ times) (new_timer 100 (pos 2))))
runs-IsSpaced_example = runs-IsSpaced 100 (pos 2) 100 times (omega arith) (omega arith)

runs-prompt_example : 450 < 100 + length (runs times (endless 100 100 0)) * (100 + 120) + 100
runs-prompt_example =
    runs-prompt 100 120 0 100 100 times (omega arith) (omega arith) (omega arith) (omega arith)
      (omega arith)
