-- ===== src/Bits.antt =====
-- src/Werk/Utility/Bits.hpp, at uint64_t.
mod Doubled
mod PowerOfTwo
mod Tests
use werk.Prelude.{ℕ, ◌/◌, ◌^◌, ◌%◌}
use werk.Prelude.Words.{add_u64, sub_u64, u64_mod}
use Prim.Native.Nat.{bit_or}

-- A shift by less than 64.
unfoldable pub bitmask : ℕ → ℕ
bitmask n = sub_u64 (2 ^ n % u64_mod) 1

-- `v |= v >> k`
unfoldable pub smear : ℕ → ℕ → ℕ
smear k v = bit_or v (v / 2 ^ k)

unfoldable pub round_up_pow2 : ℕ → ℕ
unfolding smear
round_up_pow2 v =
    add_u64 (smear 32 (smear 16 (smear 8 (smear 4 (smear 2 (smear 1 (sub_u64 v 1))))))) 1
