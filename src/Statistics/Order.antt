-- ===== src/Statistics/Order.antt =====
-- src/Werk/Math/OrderStatistics.hpp, at uint64_t samples: samples that are sorted when they are read.
pub mod Lazy
mod Tests
use werk.Prelude.{
  ℕ, ◌+◌, ◌-◌, List, [], ◌∷◌, ◌++◌, Bool, true, false, leb, if◌then◌else◌, length, get_or,
}

pub record Order : Type 0 where
  pub samples : List ℕ
  pub dirty : Bool

unfoldable pub new_order : Order
new_order = record { samples = []; dirty = false }

abbrev pub count : Order → ℕ
count s = length s.samples

unfoldable pub sample : ℕ → Order → Order
sample t s = record { samples = s.samples ++ (t ∷ []); dirty = true }

unfoldable pub reset : Order → Order
reset s = record { samples = []; dirty = false }

-- `std::sort`
unfoldable pub put : ℕ → List ℕ → List ℕ
put t [] = t ∷ []
put t (x ∷ xs) = if leb t x then t ∷ x ∷ xs else x ∷ put t xs

unfoldable pub sort : List ℕ → List ℕ
unfolding put
sort [] = []
sort (x ∷ xs) = put x (sort xs)

unfoldable pub update : Order → Order
unfolding sort
update s = if s.dirty then record { samples = sort s.samples; dirty = false } else s

-- A read sorts the samples first, and gives 0 without samples; an index out of bounds is read as 0.
unfoldable pub read_from : (ℕ → ℕ) → List ℕ → Order → ℕ × Order
unfolding update
read_from index [] s = (0, s)
read_from index (x ∷ xs) s = let s' = update s in (get_or s'.samples (index (count s')) 0, s')

unfoldable pub read_at : (ℕ → ℕ) → Order → ℕ × Order
unfolding read_from
read_at index s = read_from index s.samples s

unfoldable pub min : Order → ℕ × Order
unfolding read_at
min = read_at (λ n. 0)

unfoldable pub max : Order → ℕ × Order
unfolding read_at
max = read_at (λ n. n - 1)

-- `fractile f`, where `scaled` is the product of f with a count, cast to size_t.
unfoldable pub fractile : (ℕ → ℕ) → Order → ℕ × Order
unfolding read_at
fractile scaled = read_at scaled
