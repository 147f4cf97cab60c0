-- ===== src/SlidingWindow/Statistics/Tests.antt =====
-- A window of two slots that is filled, overfilled and emptied.
use werk.Prelude.{ℕ, ◌+◌, ◌-◌, ◌*◌, ◌%◌, ◌≡◌, refl, Bool, List, [], ◌∷◌, ◌++◌, ◌==◌}
use werk.Statistics.{Doubles}
use werk.SlidingWindow.{Window, sample, make_room, store, force_slide_one, slide_one, slide}
use werk.SlidingWindow.Spec.{Op}
use werk.SlidingWindow.Statistics.{Weighted, new_weighted, statistics_hooks, sample_weighted}
use werk.SlidingWindow.Statistics.Fresh.{run, run-IsFresh}

-- Signed numbers of one byte in place of doubles.
abbrev bytes : Doubles ℕ
bytes = record {
  of_nat = λ n. n;
  add = λ a b. (a + b) % 256;
  sub = λ a b. (a + 256 - b) % 256;
  mul = λ a b. a * b % 256;
  div = λ a b. a;
  sqrt = λ a. a;
}

abbrev is_zero : ℕ → Bool
is_zero n = n == 0

abbrev fresh : Window ℕ (Weighted ℕ)
fresh = record {
  duration = 10;
  front = 0;
  count = 0;
  indexes = 0 ∷ 0 ∷ [];
  values = 0 ∷ 0 ∷ [];
  impl = new_weighted bytes is_zero;
}

abbrev filled : List (Op ℕ)
filled = Op.add 1 7 ∷ Op.add 2 8 ∷ Op.add 3 9 ∷ []

-- The statistics count what leaves the window too: 4 samples for 2 values.
filled_test : (run bytes is_zero 2 0 filled fresh).impl.count ≡ 4
unfolding sample make_room store force_slide_one statistics_hooks sample_weighted
filled_test = refl

run-IsFresh_example :
    (run bytes is_zero 2 0 (filled ++ (Op.expire 13 ∷ Op.drop_one ∷ [])) fresh).impl
    ≡ new_weighted bytes is_zero
unfolding sample make_room store force_slide_one slide_one slide
run-IsFresh_example =
    run-IsFresh bytes is_zero 2 0 (filled ++ (Op.expire 13 ∷ Op.drop_one ∷ [])) fresh (λ e. refl)
      refl
