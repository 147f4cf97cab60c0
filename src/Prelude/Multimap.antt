-- ===== src/Prelude/Multimap.antt =====
-- `std::multimap` from times: a list in order of the keys, equal keys in order of insertion.
use werk.Prelude.Tests.{ltb, if◌then◌else◌}
use Prim.Native.Nat.{ℕ, ◌≤◌}
use mathlib.Core.List.{List, [], ◌∷◌}
use native.Mathlib.Omega.{arith}

module _ {ℓ} {A : Type ℓ} where
  -- A new entry goes behind the entries of the same key.
  unfoldable pub emplace : ℕ → A → List (ℕ × A) → List (ℕ × A)
  emplace t a [] = (t, a) ∷ []
  emplace t a ((u, b) ∷ m) = if ltb t u then (t, a) ∷ (u, b) ∷ m else (u, b) ∷ emplace t a m

  -- Every key is at least `lo`, and the keys ascend.
  abbrev pub Ascends : ℕ → List (ℕ × A) → Type 0
  Ascends lo [] = Unit
  Ascends lo ((u, b) ∷ m) = (lo ≤ u) × Ascends u m

  pub Ascends-weaken : (lo hi : ℕ) (m : List (ℕ × A)) → lo ≤ hi → Ascends hi m → Ascends lo m
  Ascends-weaken lo hi [] h s = tt
  Ascends-weaken lo hi ((u, b) ∷ m) h s = (omega arith, s.1)

  pub emplace-Ascends :
      (lo t : ℕ) (a : A) (m : List (ℕ × A)) → lo ≤ t → Ascends lo m → Ascends lo (emplace t a m)
  unfolding emplace
  emplace-Ascends lo t a [] h s = (h, tt)
  emplace-Ascends lo t a ((u, b) ∷ m) h s = ground (arith, emplace-Ascends u t a m)
