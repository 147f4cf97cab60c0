-- ===== src/SlidingWindow/Spec.antt =====
-- What a window promises: a queue of at most `size` entries, oldest first.
use werk.Prelude.{ℕ, List, [], ◌∷◌, ◌++◌, Bool, ltb, leb, if◌then◌else◌, length}
use werk.Prelude.Words.{sub_u64}

pub data Op (V : Type 0) : Type 0 where
  add : ℕ → V → Op V
  expire : ℕ → Op V
  drop_one clear : Op V

module _ {V : Type 0} where
  -- Older than `duration` at `index`, in uint64_t arithmetic.
  abbrev pub stale : ℕ → ℕ → ℕ × V → Bool
  stale duration index (i, v) = ltb duration (sub_u64 index i)

  abbrev pub tail : List (ℕ × V) → List (ℕ × V)
  tail [] = []
  tail (x ∷ xs) = xs

  abbrev pub drop_while : (ℕ × V → Bool) → List (ℕ × V) → List (ℕ × V)
  drop_while p [] = []
  drop_while p (x ∷ xs) = if p x then drop_while p xs else x ∷ xs

  -- Room for one more: the oldest entry goes if the queue is full.
  abbrev pub evict : ℕ → List (ℕ × V) → List (ℕ × V)
  evict size q = if leb size (length q) then tail q else q

  abbrev pub step : ℕ → ℕ → Op V → List (ℕ × V) → List (ℕ × V)
  step size duration (add i v) q = evict size q ++ ((i, v) ∷ [])
  step size duration (expire i) q = drop_while (stale duration i) q
  step size duration drop_one q = tail q
  step size duration clear q = []

  abbrev pub run : ℕ → ℕ → List (Op V) → List (ℕ × V) → List (ℕ × V)
  run size duration [] q = q
  run size duration (o ∷ os) q = run size duration os (step size duration o q)
