-- ===== src/Distribution/Tests.antt =====
-- A distribution over two values.
use werk.Prelude.{ℕ, ◌+◌, ◌-◌, ◌*◌, ◌/◌, ◌≡◌, refl, List, [], ◌∷◌}
use werk.Statistics.{Doubles}
use werk.Distribution.{new_distribution, weight, cdf, sample, reset, add_weight}
use werk.Distribution.Weights.{
  Call, sample_call, reset_call, run, run-represents, sum_from, of_value, up_to, Sorted,
}

-- Whole numbers in place of doubles.
abbrev whole : Doubles ℕ
whole = record {
  of_nat = λ n. n;
  add = λ a b. a + b;
  sub = λ a b. a - b;
  mul = λ a b. a * b;
  div = λ a b. a / b;
  sqrt = λ a. a;
}

abbrev calls : List (Call ℕ)
calls = sample_call 1 9 ∷ reset_call ∷ sample_call 5 2 ∷ sample_call 3 1 ∷ sample_call 5 4 ∷ []

run-represents_example :
    let p = run whole calls (new_distribution whole) in
    let since : List (ℕ × ℕ) = (5, 2) ∷ (3, 1) ∷ (5, 4) ∷ [] in
    ((t : ℕ) → weight whole t p ≡ sum_from whole 0 (of_value t since))
    × (p.weight_sum ≡ 7)
    × (p.sample_count ≡ 3)
    × Sorted 0 p.weights
    × ((t : ℕ) → cdf whole t p ≡ sum_from whole 0 (up_to t p.weights) / 7)
run-represents_example = run-represents whole calls

weights_test : (run whole calls (new_distribution whole)).weights ≡ (3, 1) ∷ (5, 6) ∷ []
unfolding new_distribution sample add_weight reset
weights_test = refl
