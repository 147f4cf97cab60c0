-- ===== src/Bits/PowerOfTwo.antt =====
-- Rounding up to a power of two.
use werk.Prelude.{
  ℕ, zero, suc, ◌+◌, ◌-◌, ◌*◌, ◌/◌, ◌%◌, ◌^◌, ◌≤◌, ◌<◌, ◌≡◌, refl, sym, ap, ◌∙◌, ◌⊎◌, inl, inr,
  false, arith, leb, ◌==◌, ==_iff, Bool-cases,
}
use werk.Prelude.Words.{add_u64}
use Prim.Native.Nat.{bit_or}
use werk.Bits.{smear, round_up_pow2}
use werk.Bits.Doubled.{
  doubled, doubled-add, doubled-cancel, doubled-doubled, doubled-index, doubled-power, bit_or-above,
  bit_or-lt, bit_or_step,
}

le-bit_or : (n x y : ℕ) → x ≤ n → x ≤ bit_or x y
le-bit_or zero x y h = omega arith
le-bit_or (suc n) x y h = elim (Bool-cases (x == 0)) [
  | inl e ↦ omega (arith, (==_iff x 0).0 e)
  | inr e ↦ omega (arith, bit_or_step x y, le-bit_or n (x / 2) (y / 2) (half e))
]
  where
    half : (x == 0) ≡ false → x / 2 ≤ n
    half e = ground arith

le-doubled : (j a : ℕ) → a ≤ doubled j a
le-doubled zero a = omega arith
le-doubled (suc j) a = omega (arith, le-doubled j a)

doubled_mono : (k m : ℕ) → doubled m 1 ≤ doubled (k + m) 1
doubled_mono k m = omega (arith, le-doubled k (doubled m 1), doubled-doubled k m 1)

-- A number of `n` digits, of which the `j` highest are ones, or all of them.
abbrev Smeared : ℕ → ℕ → ℕ → Type 0
Smeared j n x =
    (x < doubled n 1)
    × ((x + 1 ≡ doubled n 1) ⊎ ((m : ℕ) × (n ≡ j + m) × (doubled n 1 ≤ x + doubled m 1)))

-- What `y`, which is `x` shifted by `j`, brings in.
bit_or-upper :
    (j m n x y : ℕ)
    → n ≡ j + m
    → doubled n 1 ≤ x + doubled m 1
    → y < doubled m 1
    → doubled n 1 + y ≤ bit_or x y + doubled m 1
bit_or-upper j m n x y e h lt =
    let ones = doubled j 1 - 1 in
    let top : doubled m ones + doubled m 1 ≡ doubled n 1 =
      sym (doubled-add m ones 1)
      ∙ ap (doubled m) (omega (arith, le-doubled j 1))
      ∙ doubled-doubled m j 1
      ∙ doubled-index (m + j) n 1 (omega arith) in
    omega (arith, top, bit_or-above m ones x y lt (omega (arith, top)))

smear-Smeared :
    (j n x y : ℕ)
    → doubled j y ≤ x
    → x < doubled j (y + 1)
    → Smeared j n x
    → Smeared (j + j) n (bit_or x y)
smear-Smeared j n x y lo hi (lt, inl full) =
    let below = bit_or-lt n x y lt (omega (arith, le-doubled j y)) in
    (below, inl (omega (arith, le-bit_or x x y (omega arith))))
smear-Smeared j n x y lo hi (lt, inr (m, e, h)) =
    let split : doubled j (doubled m 1) ≡ doubled n 1 =
      doubled-doubled j m 1 ∙ doubled-index (j + m) n 1 (omega arith) in
    let below = bit_or-lt n x y lt (omega (arith, le-doubled j y)) in
    let y_lt = doubled-cancel j y (doubled m 1) (omega (arith, split)) in
    let upper = bit_or-upper j m n x y e h y_lt in
    (
      below,
      elim (Bool-cases (leb j m)) [
        | inl le ↦
            let m' = m - j in
            let rest : doubled j (doubled m' 1) ≡ doubled m 1 =
              doubled-doubled j m' 1 ∙ doubled-index (j + m') m 1 (ground arith) in
            let much =
              doubled-cancel j (doubled m 1) (y + 1 + doubled m' 1)
                (omega (arith, doubled-add j (y + 1) (doubled m' 1), rest, split)) in
            inr (m', ground arith, omega (arith, upper, much))
        | inr gt ↦
            let less : doubled m 1 ≤ doubled j 1 =
              omega (arith, doubled_mono (j - m) m, doubled-index (j - m + m) j 1 (ground arith)) in
            let much =
              doubled-cancel j (doubled m 1) (y + 1 + 1)
                (omega (arith, doubled-add j (y + 1) 1, less, split)) in
            inl (omega (arith, upper, much, below))
      ],
    )

-- The digits of a number.
digits_of : (fuel x : ℕ) → x ≤ fuel → 1 ≤ x → (m : ℕ) × (doubled m 1 ≤ x) × (x < doubled (suc m) 1)
digits_of zero x h p = absurd (omega (arith, h, p))
digits_of (suc fuel) x h p = elim (Bool-cases (x == 1)) [
  | inl e ↦ (0, omega (arith, p), omega (arith, (==_iff x 1).0 e))
  | inr e ↦
      let (m, lo, hi) = digits_of fuel (x / 2) (omega (arith, h, p)) (two_up e) in
      (suc m, omega (arith, lo), omega (arith, hi))
]
  where
    two_up : (x == 1) ≡ false → 1 ≤ x / 2
    two_up e = ground arith

smears-Smeared :
    (n x : ℕ)
    → Smeared 1 n x
    → Smeared 64 n (smear 32 (smear 16 (smear 8 (smear 4 (smear 2 (smear 1 x))))))
unfolding smear
smears-Smeared n x s =
    let a = smear-Smeared 1 n x (x / 2 ^ 1) (omega arith) (omega arith) s in
    let b = smear-Smeared 2 n _ (smear 1 x / 2 ^ 2) (omega arith) (omega arith) a in
    let c = smear-Smeared 4 n _ (smear 2 (smear 1 x) / 2 ^ 4) (omega arith) (omega arith) b in
    let d =
      smear-Smeared 8 n _ (smear 4 (smear 2 (smear 1 x)) / 2 ^ 8) (omega arith) (omega arith) c in
    let e =
      smear-Smeared 16 n _ (smear 8 (smear 4 (smear 2 (smear 1 x))) / 2 ^ 16) (omega arith)
        (omega arith) d in
    smear-Smeared 32 n _ (smear 16 (smear 8 (smear 4 (smear 2 (smear 1 x)))) / 2 ^ 32) (omega arith)
      (omega arith) e

all_ones : (n x : ℕ) → n ≤ 64 → Smeared 64 n x → x + 1 ≡ doubled n 1
all_ones n x le (lt, inl full) = full
all_ones n x le (lt, inr (m, e, h)) =
    let none_left : doubled m 1 ≡ 1 = doubled-index m 0 1 (omega arith) in
    omega (arith, lt, h, none_left)

doubled-bound : (m k : ℕ) → m ≤ k → doubled m 1 ≤ doubled k 1
doubled-bound m k h =
    omega (arith, doubled_mono (k - m) m, doubled-index (k - m + m) k 1 (omega arith))

digits-word : (m w : ℕ) → doubled m 1 ≤ w → w < 2 ^ 64 → m ≤ 63
digits-word m w lo h = elim (Bool-cases (leb m 63)) [
  | inl le ↦ ground arith
  | inr gt ↦ absurd (omega (arith, h, lo, doubled-bound 64 m (ground arith)))
]

-- What a word is rounded to, less one.
smears-ones :
    (w : ℕ)
    → 1 ≤ w
    → w < 2 ^ 64
    → (m : ℕ) × (doubled m 1 ≤ w)
      × (w < doubled (suc m) 1)
      × (m ≤ 63)
      × (smear 32 (smear 16 (smear 8 (smear 4 (smear 2 (smear 1 w))))) + 1 ≡ doubled (suc m) 1)
smears-ones w p h =
    let (m, lo, hi) = digits_of w w (omega arith) p in
    let le = digits-word m w lo h in
    (
      m,
      lo,
      hi,
      le,
      all_ones (suc m) _ (omega (arith, le))
          (smears-Smeared (suc m) w (hi, inr (m, omega arith, omega (arith, lo)))),
    )

-- A word is rounded up to the least power of two that is no less than it, or to 0 if it is 0 or
-- that power does not fit into a word.
pub round_up_pow2_lem :
    (v : ℕ)
    → v < 2 ^ 64
    → ((n : ℕ) × (round_up_pow2 v ≡ 2 ^ n) × (v ≤ 2 ^ n) × (2 ^ n < 2 * v))
      ⊎ ((round_up_pow2 v ≡ 0) × ((v ≡ 0) ⊎ (2 ^ 63 < v)))
unfolding round_up_pow2 smear
round_up_pow2_lem zero h = inr (refl, inl refl)
round_up_pow2_lem (suc zero) h = inl (0, refl, omega arith, omega arith)
round_up_pow2_lem (suc (suc u)) h =
    let (m, lo, hi, le, ones) = smears-ones (suc u) (omega arith) (omega arith) in
    let value : round_up_pow2 (suc (suc u)) ≡ doubled (suc m) 1 % 2 ^ 64 =
      ap (λ w. add_u64 (smear 32 (smear 16 (smear 8 (smear 4 (smear 2 (smear 1 w)))))) 1)
        (omega (arith, h))
      ∙ ap (λ r. r % 2 ^ 64) ones in
    elim (Bool-cases (leb m 62)) [
      | inl small ↦
          let fits = doubled-bound (suc m) 63 (ground arith) in
          inl (
            suc m,
            value ∙ omega (arith, fits) ∙ doubled-power (suc m),
            omega (arith, hi, doubled-power (suc m)),
            omega (arith, lo, doubled-power (suc m)),
          )
      | inr large ↦
          let last : m ≡ 63 = ground (arith, le) in
          inr (
            value ∙ ap (λ k. doubled (suc k) 1 % 2 ^ 64) last,
            inr (omega (arith, lo, doubled-index m 63 1 last)),
          )
    ]
