-- ===== src/Profile.antt =====
-- src/Werk/Profiling/Profile.hpp: intervals, in bins whose order statistics are sampled.
mod Bins
mod Tests
use werk.Prelude.{ℕ, leb, ◌==◌, if◌then◌else◌, ltb}
use werk.Prelude.Int.{ℤ, pos, negsuc, to_i64, to_u64, neg}
use werk.Prelude.Words.{add_u64, sub_u64}
use werk.Statistics.{Doubles, Ranged, new_ranged, sample, reset}
use werk.Statistics.Order as Order

pub record Profile (D : Type 0) : Type 0 where
  pub sample_size : ℕ
  pub warmup_size : ℕ
  pub count : ℕ
  pub start_time : ℕ
  pub last_delta : ℤ
  pub order_statistics : Order.Order
  pub warmup_statistics : Ranged D
  pub min_statistics : Ranged D
  pub f25_statistics : Ranged D
  pub f50_statistics : Ranged D
  pub f75_statistics : Ranged D
  pub f90_statistics : Ranged D
  pub f95_statistics : Ranged D
  pub f99_statistics : Ranged D
  pub max_statistics : Ranged D

-- The interval, negative for a time before the start.
unfoldable pub delta_of : ℕ → ℕ → ℤ
delta_of time start =
    if ltb start time then to_i64 (sub_u64 time start) else neg (to_i64 (sub_u64 start time))

-- `scaled p n` is the product of p hundredths with n, cast to size_t.
module _ {D : Type 0} (d : Doubles D) (scaled : ℕ → ℕ → ℕ) where
  unfoldable pub new_profile : ℕ → ℕ → Profile D
  unfolding new_ranged Order.new_order
  new_profile sample_size warmup_size = record {
    sample_size = sample_size;
    warmup_size = warmup_size;
    count = 0;
    start_time = 0;
    last_delta = pos 0;
    order_statistics = Order.new_order;
    warmup_statistics = new_ranged d;
    min_statistics = new_ranged d;
    f25_statistics = new_ranged d;
    f50_statistics = new_ranged d;
    f75_statistics = new_ranged d;
    f90_statistics = new_ranged d;
    f95_statistics = new_ranged d;
    f99_statistics = new_ranged d;
    max_statistics = new_ranged d;
  }

  unfoldable pub start : ℕ → Profile D → Profile D
  start time p = record p { start_time = time }

  -- `sampleFractiles` of a bin that is not empty
  unfoldable pub sample_bin : Profile D → Profile D
  unfolding sample Order.min Order.fractile Order.max Order.reset
  sample_bin p =
      let (v0, o0) = Order.min p.order_statistics in
      let (v25, o25) = Order.fractile (scaled 25) o0 in
      let (v50, o50) = Order.fractile (scaled 50) o25 in
      let (v75, o75) = Order.fractile (scaled 75) o50 in
      let (v90, o90) = Order.fractile (scaled 90) o75 in
      let (v95, o95) = Order.fractile (scaled 95) o90 in
      let (v99, o99) = Order.fractile (scaled 99) o95 in
      let (v100, o100) = Order.max o99 in
      record p {
        min_statistics = sample d v0 p.min_statistics;
        f25_statistics = sample d v25 p.f25_statistics;
        f50_statistics = sample d v50 p.f50_statistics;
        f75_statistics = sample d v75 p.f75_statistics;
        f90_statistics = sample d v90 p.f90_statistics;
        f95_statistics = sample d v95 p.f95_statistics;
        f99_statistics = sample d v99 p.f99_statistics;
        max_statistics = sample d v100 p.max_statistics;
        order_statistics = Order.reset o100;
      }

  unfoldable pub sample_fractiles : Profile D → Profile D
  unfolding sample_bin
  sample_fractiles p = if Order.count p.order_statistics == 0 then p else sample_bin p

  -- `stop` behind the warmup: the interval goes to the bin, which is sampled when it is full.
  unfoldable pub stop_sample : ℤ → Profile D → Profile D
  unfolding sample_fractiles Order.sample
  stop_sample delta p =
      let p' = record p {
        order_statistics = Order.sample (to_u64 delta) p.order_statistics;
        start_time = 0;
      } in
      if leb p'.sample_size (Order.count p'.order_statistics) then sample_fractiles p' else p'

  -- `stop` in the warmup, which leaves the start time.
  unfoldable pub stop_warmup : ℤ → Profile D → Profile D
  unfolding sample
  stop_warmup delta p = record p { warmup_statistics = sample d (to_u64 delta) p.warmup_statistics }

  unfoldable pub stop : ℕ → Profile D → ℤ × Profile D
  unfolding stop_sample stop_warmup delta_of
  stop time p =
      if p.start_time == 0
      then (pos 0, p)
      else (let delta = delta_of time p.start_time in
          let p' = record p { last_delta = delta; count = add_u64 p.count 1 } in
          (
            delta,
            if leb p'.count p'.warmup_size then stop_warmup delta p' else stop_sample delta p',
          ))

  unfoldable pub restart : ℕ → Profile D → ℤ × Profile D
  unfolding stop start
  restart time p = let (delta, p') = stop time p in (delta, start time p')

  unfoldable pub reset_all : Profile D → Profile D
  unfolding reset Order.reset
  reset_all p = record p {
    count = 0;
    start_time = 0;
    order_statistics = Order.reset p.order_statistics;
    warmup_statistics = reset d p.warmup_statistics;
    min_statistics = reset d p.min_statistics;
    f25_statistics = reset d p.f25_statistics;
    f50_statistics = reset d p.f50_statistics;
    f75_statistics = reset d p.f75_statistics;
    f90_statistics = reset d p.f90_statistics;
    f95_statistics = reset d p.f95_statistics;
    f99_statistics = reset d p.f99_statistics;
    max_statistics = reset d p.max_statistics;
  }
