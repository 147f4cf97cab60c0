-- ===== src/Distribution.antt =====
-- src/Werk/Math/DiscreteDistribution.hpp, at uint64_t values: weights by value in a `std::map`.
mod Weights
mod Tests
use werk.Prelude.{
  ℕ, zero, suc, ◌+◌, ◌-◌, ◌*◌, ◌/◌, ◌%◌, ◌^◌, ◌≤◌, ◌<◌, ◌≡◌, ◌≢◌, refl, sym, ap, ap₂, ◌∙◌, subst,
  ◌⊎◌, inl, inr, Bool, true, false, not, ◌&&◌, ◌||◌, Option, none, some, List, [], ◌∷◌, ◌++◌, map,
  arith, ltb, leb, ◌==◌, ==_iff, if◌then◌else◌, if-true, if-false, Bool-cases, Option-cases, length,
  get_elem?, get_or, set, take, drop, All, All-append, length-append, length-set,
}
use werk.Prelude.Words.{add_u64}
use werk.Statistics.{Doubles}

-- `weights` is the map, in the order of its keys.
pub record DiscreteDistribution (D : Type 0) : Type 0 where
  pub sample_count : ℕ
  pub weight_sum : D
  pub weights : List (ℕ × D)

module _ {D : Type 0} (d : Doubles D) where
  unfoldable pub new_distribution : DiscreteDistribution D
  new_distribution = record { sample_count = 0; weight_sum = d.of_nat 0; weights = [] }

  -- `find`, and 0.0 behind the end.
  unfoldable pub find_weight : ℕ → List (ℕ × D) → D
  find_weight t [] = d.of_nat 0
  find_weight t ((u, w) ∷ m) = if u == t then w else find_weight t m

  unfoldable pub weight : ℕ → DiscreteDistribution D → D
  unfolding find_weight
  weight t p = find_weight t p.weights

  -- The loop of `cumulativeWeight`, with the sum so far.
  unfoldable pub sum_up_to : ℕ → List (ℕ × D) → D → D
  sum_up_to t [] sum = sum
  sum_up_to t ((u, w) ∷ m) sum =
      let rest = sum_up_to t m (d.add sum w) in if ltb t u then sum else rest

  unfoldable pub cumulative_weight : ℕ → DiscreteDistribution D → D
  unfolding sum_up_to
  cumulative_weight t p = sum_up_to t p.weights (d.of_nat 0)

  -- A value that has no weight has probability 0.0, even where the sum is 0.0.
  unfoldable pub find_pdf : ℕ → D → List (ℕ × D) → D
  find_pdf t weight_sum [] = d.of_nat 0
  find_pdf t weight_sum ((u, w) ∷ m) =
      if u == t then d.div w weight_sum else find_pdf t weight_sum m

  unfoldable pub pdf : ℕ → DiscreteDistribution D → D
  unfolding find_pdf
  pdf t p = find_pdf t p.weight_sum p.weights

  unfoldable pub cdf : ℕ → DiscreteDistribution D → D
  unfolding cumulative_weight
  cdf t p = d.div (cumulative_weight t p) p.weight_sum

  -- `_weights[t] += dWeight`, which starts from 0.0.
  unfoldable pub add_weight : ℕ → D → List (ℕ × D) → List (ℕ × D)
  add_weight t dw [] = (t, d.add (d.of_nat 0) dw) ∷ []
  add_weight t dw ((u, w) ∷ m) =
      if t == u
      then (u, d.add w dw) ∷ m
      else if ltb t u
      then (t, d.add (d.of_nat 0) dw) ∷ (u, w) ∷ m
      else (u, w) ∷ add_weight t dw m

  unfoldable pub sample : ℕ → D → DiscreteDistribution D → DiscreteDistribution D
  unfolding add_weight
  sample t dw p = record {
    sample_count = add_u64 p.sample_count 1;
    weight_sum = d.add p.weight_sum dw;
    weights = add_weight t dw p.weights;
  }

  unfoldable pub reset : DiscreteDistribution D → DiscreteDistribution D
  unfolding new_distribution
  reset p = new_distribution
