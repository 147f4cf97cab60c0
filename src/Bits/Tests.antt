-- ===== src/Bits/Tests.antt =====
-- Rounding at small numbers and at the ends of the words.
use werk.Prelude.{ℕ, ◌+◌, ◌^◌, ◌≤◌, ◌<◌, ◌≡◌, refl, ◌⊎◌, arith}
use werk.Bits.{bitmask, smear, round_up_pow2}
use werk.Bits.PowerOfTwo.{round_up_pow2_lem}

abbrev hundred : ℕ
hundred = 100

round_up_pow2_lem_example :
    ((n : ℕ) × (round_up_pow2 100 ≡ 2 ^ n) × (100 ≤ 2 ^ n) × (2 ^ n < 200))
    ⊎ ((round_up_pow2 100 ≡ 0) × ((hundred ≡ 0) ⊎ (2 ^ 63 < 100)))
round_up_pow2_lem_example = round_up_pow2_lem 100 (omega arith)

rounded_test : round_up_pow2 129 ≡ 256
unfolding round_up_pow2 smear
rounded_test = refl

largest_test : round_up_pow2 (2 ^ 63) ≡ 2 ^ 63
unfolding round_up_pow2 smear
largest_test = refl

overflow_test : round_up_pow2 (2 ^ 63 + 1) ≡ 0
unfolding round_up_pow2 smear
overflow_test = refl

bitmask_test : bitmask 5 ≡ 31
unfolding bitmask
bitmask_test = refl
