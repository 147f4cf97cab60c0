-- ===== src/Bits/Doubled.antt =====
-- Numbers doubled a number of times, and `bit_or` by its lowest digits.
use werk.Prelude.{
  ℕ, zero, suc, ◌+◌, ◌*◌, ◌/◌, ◌%◌, ◌^◌, ◌≤◌, ◌<◌, ◌≡◌, refl, sym, ap, ap₂, ◌∙◌, inl, inr, false,
  arith, ◌==◌, ==_iff, Bool-cases,
}
use Prim.Native.Nat.{bit_or, digits, bit_or-bitwise, max}

abbrev pub doubled : ℕ → ℕ → ℕ
doubled zero a = a
doubled (suc j) a = 2 * doubled j a

pub doubled-add : (j a b : ℕ) → doubled j (a + b) ≡ doubled j a + doubled j b
doubled-add zero a b = refl
doubled-add (suc j) a b = omega (arith, doubled-add j a b)

pub doubled-le : (j a b : ℕ) → a ≤ b → doubled j a ≤ doubled j b
doubled-le zero a b h = h
doubled-le (suc j) a b h = omega (arith, doubled-le j a b h)

pub doubled-cancel : (j a b : ℕ) → doubled j a < doubled j b → a < b
doubled-cancel zero a b h = h
doubled-cancel (suc j) a b h = doubled-cancel j a b (omega (arith, h))

pub doubled-index : (j m a : ℕ) → j ≡ m → doubled j a ≡ doubled m a
doubled-index j m a e = ap (λ k. doubled k a) e

pub doubled-doubled : (j m a : ℕ) → doubled j (doubled m a) ≡ doubled (j + m) a
doubled-doubled zero m a = doubled-index m (0 + m) a (omega arith)
doubled-doubled (suc j) m a =
    ap (λ x. 2 * x) (doubled-doubled j m a)
    ∙ doubled-index (suc (j + m)) (suc j + m) a (omega arith)

pub doubled-power : (j : ℕ) → doubled j 1 ≡ 2 ^ j
doubled-power zero = refl
doubled-power (suc j) = omega (arith, doubled-power j)

-- The digits of `bit_or`, with the fuel that its definition gives them.
abbrev or_digits : ℕ → ℕ → ℕ → ℕ
or_digits n a b = digits (λ b. b) max n a b

or_digits_fuel : (n m a b : ℕ) → a ≤ n → a ≤ m → or_digits n a b ≡ or_digits m a b
or_digits_fuel zero zero a b p q = refl
or_digits_fuel zero (suc m) zero b p q = refl
or_digits_fuel zero (suc m) (suc a) b p q = absurd (omega arith)
or_digits_fuel (suc n) zero zero b p q = refl
or_digits_fuel (suc n) zero (suc a) b p q = absurd (omega arith)
or_digits_fuel (suc n) (suc m) zero b p q = refl
or_digits_fuel (suc n) (suc m) (suc a) b p q =
    omega (arith, or_digits_fuel n m (suc a / 2) (b / 2) (omega arith) (omega arith))

zero-bit_or : (b : ℕ) → bit_or 0 b ≡ b
zero-bit_or b = bit_or-bitwise 0 b

pub bit_or_step : (a b : ℕ) → bit_or a b ≡ bit_or (a / 2) (b / 2) * 2 + max (a % 2) (b % 2)
bit_or_step zero b = omega (arith, zero-bit_or b, zero-bit_or (b / 2))
bit_or_step (suc a) b = omega (
  arith,
  bit_or-bitwise (suc a) b,
  bit_or-bitwise (suc a / 2) (b / 2),
  or_digits_fuel a (suc a / 2) (suc a / 2) (b / 2) (omega arith) (omega arith),
)

bit_or-zero_fuel : (n a : ℕ) → a ≤ n → bit_or a 0 ≡ a
bit_or-zero_fuel zero a h = ap (λ x. bit_or x 0) zeroed ∙ sym zeroed
  where
    zeroed : a ≡ 0
    zeroed = omega arith
bit_or-zero_fuel (suc n) a h = elim (Bool-cases (a == 0)) [
  | inl e ↦ ap (λ x. bit_or x 0) ((==_iff a 0).0 e) ∙ sym ((==_iff a 0).0 e)
  | inr e ↦ omega (arith, bit_or_step a 0, bit_or-zero_fuel n (a / 2) (half e))
]
  where
    half : (a == 0) ≡ false → a / 2 ≤ n
    half e = ground arith

-- The digits above the `m` lowest stay, and the others are no less than those that are put in.
pub bit_or-above : (m a x y : ℕ) → y < doubled m 1 → doubled m a ≤ x → doubled m a + y ≤ bit_or x y
bit_or-above zero a x y h k =
    omega (arith, ap (bit_or x) (zeroed h), bit_or-zero_fuel x x (omega arith))
  where
    zeroed : y < 1 → y ≡ 0
    zeroed lt = omega arith
bit_or-above (suc m) a x y h k =
    omega (arith, bit_or_step x y, bit_or-above m a (x / 2) (y / 2) (omega arith) (omega arith))

-- No digits come in above those of either number.
pub bit_or-lt : (n x y : ℕ) → x < doubled n 1 → y < doubled n 1 → bit_or x y < doubled n 1
bit_or-lt zero x y h k = omega (arith, ap₂ bit_or (zeroed x h) (zeroed y k), zero-bit_or 0)
  where
    zeroed : (z : ℕ) → z < 1 → z ≡ 0
    zeroed z lt = omega arith
bit_or-lt (suc n) x y h k =
    omega (arith, bit_or_step x y, bit_or-lt n (x / 2) (y / 2) (omega arith) (omega arith))
