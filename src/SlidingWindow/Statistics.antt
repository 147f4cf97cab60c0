-- ===== src/SlidingWindow/Statistics.antt =====
-- src/Werk/Math/WeightedSummaryStatistics.hpp and SlidingSummaryStatistics.hpp: statistics of the
-- values in a sliding window, which are sampled with a weight of -1 when they leave it.
mod Fresh
mod Tests
use werk.Prelude.{
  ℕ, zero, suc, ◌+◌, ◌-◌, ◌*◌, ◌/◌, ◌%◌, ◌^◌, ◌≤◌, ◌<◌, ◌≡◌, ◌≢◌, refl, sym, ap, ap₂, ◌∙◌, subst,
  ◌⊎◌, inl, inr, Bool, true, false, not, ◌&&◌, ◌||◌, Option, none, some, List, [], ◌∷◌, ◌++◌, map,
  arith, ltb, leb, ◌==◌, ==_iff, if◌then◌else◌, if-true, if-false, Bool-cases, Option-cases, length,
  get_elem?, get_or, set, take, drop, All, All-append, length-append, length-set,
}
use werk.Prelude.Words.{add_u64}
use werk.Statistics.{Doubles}
use werk.SlidingWindow.{Hooks, Window}
use werk.SlidingWindow as SlidingWindow

pub record Weighted (D : Type 0) : Type 0 where
  pub count : ℕ
  pub weight_sum : D
  pub sum : D
  pub average : D
  pub m2 : D

-- `is_zero` is the comparison of a `double` with 0.0.
module _ {D : Type 0} (d : Doubles D) (is_zero : D → Bool) where
  pub new_weighted : Weighted D
  new_weighted = record {
    count = 0;
    weight_sum = d.of_nat 0;
    sum = d.of_nat 0;
    average = d.of_nat 0;
    m2 = d.of_nat 0;
  }

  pub variance : Weighted D → D
  variance s = if is_zero s.weight_sum then d.of_nat 0 else d.div s.m2 s.weight_sum

  pub stddev : Weighted D → D
  stddev s = if is_zero s.weight_sum then d.of_nat 0 else d.sqrt (d.div s.m2 s.weight_sum)

  pub sample_weighted : D → D → Weighted D → Weighted D
  sample_weighted value weight s =
      let weight_sum = d.add s.weight_sum weight in
      let delta = d.sub value s.average in
      let average = d.add s.average (d.div (d.mul delta weight) weight_sum) in
      record {
        count = add_u64 s.count 1;
        weight_sum = weight_sum;
        sum = d.add s.sum (d.mul value weight);
        average = average;
        m2 = d.add s.m2 (d.mul (d.mul delta weight) (d.sub value average));
      }

  -- `onAddValue` and `onRemoveValue` of `SlidingSummaryStatistics`; -1.0 is 0.0 - 1.0.
  pub statistics_hooks : Hooks D (Weighted D)
  unfolding new_weighted sample_weighted
  statistics_hooks = record {
    on_add_value = λ index value s. sample_weighted value (d.of_nat 1) s;
    on_remove_value = λ count index value s.
        if count == 1
        then new_weighted
        else sample_weighted value (d.sub (d.of_nat 0) (d.of_nat 1)) s;
  }

  -- `SlidingSummaryStatistics::reset`
  pub reset : ℕ → D → Window D (Weighted D) → Window D (Weighted D)
  unfolding statistics_hooks new_weighted
  reset size junk w = record (SlidingWindow.reset statistics_hooks size junk w) {
    impl = new_weighted;
  }
