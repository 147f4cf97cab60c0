-- ===== src/SlidingWindow/Tests.antt =====
-- The unit tests of src/WerkTest/Utility/SlidingWindow.cpp, and the theorems at a window of them.
use werk.Prelude.{ℕ, ◌≡◌, refl, List, [], ◌∷◌, arith}
use werk.SlidingWindow.Spec.{Op}
use werk.SlidingWindow.Invariant.{IsValid}
use werk.SlidingWindow.Refinement.{entries, run, run_refines}
use werk.SlidingWindow.Sum.{IsSummed, total, sum-run}
use werk.SlidingWindow.{Window, slide, sample, force_slide_one, sum_hooks, sum}

abbrev fresh : Window ℕ ℕ
fresh = record {
  duration = 1000;
  front = 0;
  count = 0;
  indexes = 0 ∷ 0 ∷ 0 ∷ 0 ∷ [];
  values = 0 ∷ 0 ∷ 0 ∷ 0 ∷ [];
  impl = 0;
}

abbrev filled : List (Op ℕ)
filled = Op.add 100 2 ∷ Op.add 300 4 ∷ Op.add 500 6 ∷ Op.add 700 8 ∷ Op.add 900 10 ∷ []

fresh-IsValid : IsValid 4 fresh
fresh-IsValid = ground arith

fresh-IsSummed : IsSummed 4 0 fresh
unfolding sum
fresh-IsSummed = record { valid = fresh-IsValid; words = tt; summed = refl }

run_refines_example :
    IsValid 4 (run sum_hooks 4 0 filled fresh)
    × (entries sum_hooks 4 0 (run sum_hooks 4 0 filled fresh)
        ≡ (300, 4) ∷ (500, 6) ∷ (700, 8) ∷ (900, 10) ∷ [])
run_refines_example = run_refines sum_hooks 4 0 filled fresh fresh-IsValid

sum-run_example :
    sum (run sum_hooks 4 0 filled fresh)
    ≡ total (entries sum_hooks 4 0 (run sum_hooks 4 0 filled fresh))
sum-run_example = sum-run 4 filled fresh (omega arith) fresh-IsSummed

-- A window that holds 2, reset, then given 5: the sum is 7.
abbrev two : Window ℕ ℕ
two = record fresh {
  count = 1;
  indexes = 100 ∷ 0 ∷ 0 ∷ 0 ∷ [];
  values = 2 ∷ 0 ∷ 0 ∷ 0 ∷ [];
  impl = 2;
}

slid_sum : sum (run sum_hooks 4 0 (Op.expire 1501 ∷ []) (run sum_hooks 4 0 filled fresh)) ≡ 18
unfolding sum sample slide sum_hooks force_slide_one
slid_sum = refl
