-- ===== src/Profile/Tests.antt =====
-- A profile whose third interval fills a bin.
use werk.Prelude.{ℕ, ◌+◌, ◌*◌, ◌-◌, ◌/◌, ◌≡◌, refl, [], ◌∷◌, true}
use werk.Prelude.Int.{pos, negsuc}
use werk.Statistics.{Doubles}
use werk.Statistics.Order as Order
use werk.Profile.{Profile, new_profile, stop, delta_of}
use werk.Profile.Bins.{Sampled, put_in_bin, stop-Sampled}

-- Whole numbers in place of doubles.
abbrev whole : Doubles ℕ
whole = record {
  of_nat = λ n. n;
  add = λ a b. a + b;
  sub = λ a b. a - b;
  mul = λ a b. a * b;
  div = λ a b. a;
  sqrt = λ a. a;
}

abbrev hundredths : ℕ → ℕ → ℕ
hundredths p n = p * n / 100

abbrev two_thirds_full : Profile ℕ
two_thirds_full = record (new_profile whole hundredths 3 0) {
  count = 2;
  start_time = 100;
  order_statistics = record { samples = 9 ∷ 4 ∷ []; dirty = true };
}

-- A clock that goes back gives a negative interval.
test_delta : (delta_of 107 100 ≡ pos 7) × (delta_of 98 100 ≡ negsuc 1)
unfolding delta_of
test_delta = (refl, refl)

stop-Sampled_example :
    ((stop whole hundredths 107 two_thirds_full).0 ≡ pos 7)
    × Sampled whole hundredths
        (4 ∷ 7 ∷ 9 ∷ [])
        (put_in_bin whole hundredths (pos 7) two_thirds_full)
        (stop whole hundredths 107 two_thirds_full).1
unfolding delta_of new_profile Order.sort Order.put
stop-Sampled_example = stop-Sampled whole hundredths 107 two_thirds_full tt refl refl refl
