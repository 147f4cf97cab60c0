-- ===== src/Series/Jittered.antt =====
-- The times of a series with jitter.
use werk.Prelude.{
  ℕ, zero, suc, ◌+◌, ◌≤◌, ◌<◌, ◌≡◌, refl, sym, ap, subst, Bool, true, false, Option, none, some,
  List, [], ◌∷◌, arith, All, max,
}
use werk.Prelude.Words.{add_u64, u64_mod}
use werk.Series.{
  Series, JitterTimeSeries, new_jitter, jitter_moved, jitter_move_next, jitter_series,
}

-- The times that a series is at, up to the first move that fails; `none` if a move throws, or if
-- there are more of them than the fuel.
module _ {S : Type 0} (series : Series S) where
  abbrev pub prepend : ℕ → Option (List ℕ) → Option (List ℕ)
  prepend t none = none
  prepend t (some ts) = some (t ∷ ts)

  unfoldable pub times_from : Option (Bool × S) → Option (List ℕ) → Option (List ℕ)
  times_from none rest = none
  times_from (some (false, s)) rest = some []
  times_from (some (true, s)) rest = prepend (series.time s) rest

  abbrev pub moved_to : S → Option (Bool × S) → S
  moved_to s none = s
  moved_to s (some (success, s')) = s'

  unfoldable pub times_of : ℕ → S → Option (List ℕ)
  unfolding times_from
  times_of zero s = none
  times_of (suc n) s =
      times_from (series.move_next s) (times_of n (moved_to s (series.move_next s)))

-- Jitter between `lo` and `hi` on times, which moves them forward only: from `previous` on, none is
-- before the one before it, nor less than `lo` behind its own time, nor more than `hi` behind it
-- unless the one before it was.
abbrev pub Jitters : ℕ → ℕ → ℕ → List ℕ → List ℕ → Type 0
Jitters lo hi previous [] [] = Unit
Jitters lo hi previous [] (j ∷ js) = ⊥
Jitters lo hi previous (t ∷ ts) [] = ⊥
Jitters lo hi previous (t ∷ ts) (j ∷ js) =
    (previous ≤ j) × (t + lo ≤ j) × (j ≤ max previous (t + hi)) × Jitters lo hi j ts js

module _ {S : Type 0} (series : Series S) (get_uint64 : ℕ → ℕ → ℕ → ℕ) where
  -- What the numbers of the series' range promise.
  abbrev pub Draws : ℕ → ℕ → Type 0
  Draws lo hi = (k : ℕ) → (lo ≤ get_uint64 k lo hi) × (get_uint64 k lo hi ≤ hi)

  abbrev Jittered : ℕ → JitterTimeSeries S → List ℕ → Type 0
  Jittered n j ts =
      (js : List ℕ) × (times_of (jitter_series series get_uint64) n j ≡ some js)
      × Jitters j.min j.max j.time ts js

  abbrev jittered_to : JitterTimeSeries S → Option (Bool × S) → JitterTimeSeries S
  jittered_to j m =
      moved_to (jitter_series series get_uint64) j (jitter_moved series get_uint64 m j)

  prepend-inversion :
      (t : ℕ) (o : Option (List ℕ)) (ts : List ℕ)
      → prepend series t o ≡ some ts
      → (us : List ℕ) × (o ≡ some us) × (ts ≡ t ∷ us)
  prepend-inversion t none ts e = cc
  prepend-inversion t (some us) ts e = (us, refl, cc)

  -- Given what the moves behind this one give.
  times_from-Jitters :
      (n : ℕ) (j : JitterTimeSeries S) (m : Option (Bool × S)) (ts : List ℕ)
      → Draws j.min j.max
      → All (λ t. t + j.max < u64_mod) ts
      → times_from series m (times_of series n (moved_to series j.underlying m)) ≡ some ts
      → ((j' : JitterTimeSeries S) (ts' : List ℕ)
          → Draws j'.min j'.max
          → All (λ t. t + j'.max < u64_mod) ts'
          → times_of series n j'.underlying ≡ some ts'
          → Jittered n j' ts')
      → (js : List ℕ) × (times_from
            (jitter_series series get_uint64)
            (jitter_moved series get_uint64 m j)
            (times_of (jitter_series series get_uint64) n (jittered_to j m))
          ≡ some js)
        × Jitters j.min j.max j.time ts js
  unfolding times_from jitter_moved
  times_from-Jitters n j none ts range bound e next = cc
  times_from-Jitters n j (some (false, s)) [] range bound e next = ([], refl, tt)
  times_from-Jitters n j (some (false, s)) (t ∷ ts) range bound e next = cc
  times_from-Jitters n j (some (true, s)) ts range bound e next =
      let (us, rest, split) = prepend-inversion (series.time s) (times_of series n s) ts e in
      let bound' = subst (All (λ t. t + j.max < u64_mod)) split bound in
      let (js, found, after) = next (jittered_to j (some (true, s))) us range bound'.1 rest in
      let draw = get_uint64 j.drawn j.min j.max in
      let moved = add_u64 (series.time s) draw in
      (
        max j.time moved ∷ js,
        ap (prepend (jitter_series series get_uint64) (max j.time moved)) found,
        subst (λ l. Jitters j.min j.max j.time l (max j.time moved ∷ js)) (sym split)
            (
              omega arith,
              omega (arith, range j.drawn, bound'.0),
              omega (arith, range j.drawn, bound'.0),
              after,
            ),
      )

  times_of-Jitters :
      (n : ℕ) (j : JitterTimeSeries S) (ts : List ℕ)
      → Draws j.min j.max
      → All (λ t. t + j.max < u64_mod) ts
      → times_of series n j.underlying ≡ some ts
      → Jittered n j ts
  unfolding times_of jitter_move_next
  times_of-Jitters zero j ts range bound e = cc
  times_of-Jitters (suc n) j ts range bound e =
      times_from-Jitters n j (series.move_next j.underlying) ts range bound e (times_of-Jitters n)

  -- With numbers in the range that it is given, and times that the greatest of them does not take
  -- over the word: a new series with jitter moves as often as its underlying one, its times do not
  -- go back even where the underlying ones do, and each is at least the least number behind its own
  -- time, and no more than the greatest one behind it or else the same as the one before it.
  pub new_jitter-Jitters :
      (n : ℕ) (s : S) (lo hi : ℕ) (ts : List ℕ)
      → Draws lo hi
      → All (λ t. t + hi < u64_mod) ts
      → times_of series n s ≡ some ts
      → (js : List ℕ) × (times_of (jitter_series series get_uint64) n (new_jitter s lo hi)
          ≡ some js)
        × Jitters lo hi 0 ts js
  unfolding new_jitter
  new_jitter-Jitters n s lo hi ts range bound e =
      times_of-Jitters n (new_jitter s lo hi) ts range bound e
