-- ===== src/Statistics.antt =====
-- src/Werk/Math/SummaryStatistics.hpp, at uint64_t samples. Operations on `double` are a parameter.
pub mod Order
use werk.Prelude.{ℕ, ◌==◌, ltb, leb, if◌then◌else◌}
use werk.Prelude.Words.{add_u64, sub_u64}

pub record Doubles (D : Type 0) : Type 0 where
  pub of_nat : ℕ → D
  pub add : D → D → D
  pub sub : D → D → D
  pub mul : D → D → D
  pub div : D → D → D
  pub sqrt : D → D

pub record Summary (D : Type 0) : Type 0 where
  pub count : ℕ
  pub sum : ℕ
  pub average : D
  pub m2 : D

-- A `RangedSummaryStatistics` is its base with the range.
pub record Ranged (D : Type 0) : Type 0 where
  pub base : Summary D
  pub min : ℕ
  pub max : ℕ

module _ {D : Type 0} (d : Doubles D) where
  unfoldable pub new_summary : Summary D
  new_summary = record { count = 0; sum = 0; average = d.of_nat 0; m2 = d.of_nat 0 }

  unfoldable pub new_ranged : Ranged D
  unfolding new_summary
  new_ranged = record { base = new_summary; min = 0; max = 0 }

  unfoldable pub variance : Summary D → D
  variance s = if leb 2 s.count then d.div s.m2 (d.of_nat s.count) else d.of_nat 0

  unfoldable pub stddev : Summary D → D
  stddev s = if leb 2 s.count then d.sqrt (d.div s.m2 (d.of_nat s.count)) else d.of_nat 0

  unfoldable pub sample_summary : ℕ → Summary D → Summary D
  sample_summary t s =
      let count = add_u64 s.count 1 in
      let delta = d.sub (d.of_nat t) s.average in
      let average = d.add s.average (d.div delta (d.of_nat count)) in
      record {
        count = count;
        sum = add_u64 s.sum t;
        average = average;
        m2 = d.add s.m2 (d.mul delta (d.sub (d.of_nat t) average));
      }

  -- `reset` of the base: a `RangedSummaryStatistics` has no other.
  unfoldable pub reset : Ranged D → Ranged D
  unfolding new_summary
  reset r = record r { base = new_summary }

  unfoldable pub sample : ℕ → Ranged D → Ranged D
  unfolding sample_summary
  sample t r =
      let base = sample_summary t r.base in
      if base.count == 1
      then record { base = base; min = t; max = t }
      else if ltb r.max t
      then record { base = base; min = r.min; max = t }
      else if ltb t r.min
      then record { base = base; min = t; max = r.max }
      else record r { base = base }

unfoldable pub range : {D : Type 0} → Ranged D → ℕ
range r = sub_u64 r.max r.min
