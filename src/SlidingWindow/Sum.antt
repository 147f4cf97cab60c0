-- ===== src/SlidingWindow/Sum.antt =====
-- `SumSlidingWindow`: the running sum against the entries.
use werk.Prelude.{ℕ, zero, suc, ◌<◌, ◌≡◌, ◌≢◌, List, [], ◌∷◌, ◌++◌, arith, All, All-append}
use werk.Prelude.Words.{u64_mod, add_u64, sub_u64}
use werk.SlidingWindow.Spec.{Op}
use werk.SlidingWindow.Invariant.{IsValid, make_room-room, store-IsValid, force_slide_one-IsValid}
use werk.SlidingWindow.Refinement.{
  entries, step, run, force_slide_one-entries, read_slot, store-entries,
}
use werk.SlidingWindow.{
  Window, force_slide_one, slide_one, slide_loop, slide, make_room, store, sample, sum_hooks, sum,
}

-- The sum of the values, as uint64_t.
abbrev pub total : List (ℕ × ℕ) → ℕ
total [] = 0
total ((i, v) ∷ q) = add_u64 v (total q)

abbrev pub Words : List (ℕ × ℕ) → Type 0
Words = All (λ e. e.1 < u64_mod)

total-lt : (q : List (ℕ × ℕ)) → total q < u64_mod
total-lt [] = omega arith
total-lt ((i, v) ∷ q) = omega arith

total-append :
    (q : List (ℕ × ℕ)) (i v : ℕ) → v < u64_mod → total (q ++ ((i, v) ∷ [])) ≡ add_u64 (total q) v
total-append [] i v h = omega arith
total-append ((j, u) ∷ q) i v h = omega (arith, total-append q i v h)

-- The sum is that of the entries, which are words, plus an offset.
pub record IsSummed (size offset : ℕ) (w : Window ℕ ℕ) : Type 0 where
  pub valid : IsValid size w
  pub words : Words (entries sum_hooks size 0 w)
  pub summed : sum w ≡ add_u64 offset (total (entries sum_hooks size 0 w))

abbrev pub AddsWords : Op ℕ → Type 0
AddsWords (Op.add i v) = v < u64_mod
AddsWords (Op.expire i) = Unit
AddsWords Op.drop_one = Unit
AddsWords Op.clear = ⊥

module _ (size offset : ℕ) where
  abbrev entries_of : Window ℕ ℕ → List (ℕ × ℕ)
  entries_of = entries sum_hooks size 0

  abbrev slid : Window ℕ ℕ → Window ℕ ℕ
  slid = force_slide_one sum_hooks size 0

  unsum :
      (i v s : ℕ) (q : List (ℕ × ℕ))
      → v < u64_mod
      → s ≡ add_u64 offset (total ((i, v) ∷ q))
      → sub_u64 s v ≡ add_u64 offset (total q)
  unsum i v s q h e = omega (arith, total-lt q)

  force_slide_one-IsSummed :
      (w : Window ℕ ℕ) → w.count ≢ 0 → IsSummed size offset w → IsSummed size offset (slid w)
  unfolding sum sum_hooks
  force_slide_one-IsSummed w p s = record {
    valid = force_slide_one-IsValid sum_hooks size 0 w s.valid;
    words = (rw split at s.words).1;
    summed =
        unfold force_slide_one in
        unsum (read_slot sum_hooks size 0 w w.front).0 (read_slot sum_hooks size 0 w w.front).1
          w.impl (entries_of (slid w)) (rw split at s.words).0 (rw split at s.summed);
  }
    where
      split : entries_of w ≡ read_slot sum_hooks size 0 w w.front ∷ entries_of (slid w)
      split = force_slide_one-entries sum_hooks size 0 w p

  slide_one-IsSummed :
      (w : Window ℕ ℕ)
      → IsSummed size offset w
      → IsSummed size offset (slide_one sum_hooks size 0 w)
  unfolding slide_one
  slide_one-IsSummed w s = ground (arith, force_slide_one-IsSummed w)

  slide_loop-IsSummed :
      (fuel index : ℕ) (w : Window ℕ ℕ)
      → IsSummed size offset w
      → IsSummed size offset (slide_loop sum_hooks size 0 fuel index w)
  unfolding slide_loop
  slide_loop-IsSummed zero index w s = s
  slide_loop-IsSummed (suc fuel) index w s =
      ground (arith, force_slide_one-IsSummed w, slide_loop-IsSummed fuel index (slid w))

  make_room-IsSummed :
      (w : Window ℕ ℕ)
      → IsSummed size offset w
      → IsSummed size offset (make_room sum_hooks size 0 w)
  unfolding make_room
  make_room-IsSummed w s = ground (arith, force_slide_one-IsSummed w)

  store-IsSummed :
      (i v : ℕ) (w : Window ℕ ℕ)
      → v < u64_mod
      → w.count < size
      → IsSummed size offset w
      → IsSummed size offset (store sum_hooks size 0 i v w)
  unfolding sum sum_hooks
  store-IsSummed i v w h r s = record {
    valid = store-IsValid sum_hooks size 0 i v w s.valid r;
    words = rw grown (All-append _ (entries_of w) ((i, v) ∷ []) s.words (h, tt));
    summed = rw grown (unfold store in omega (arith, s.summed, total-append (entries_of w) i v h));
  }
    where
      grown : entries_of (store sum_hooks size 0 i v w) ≡ entries_of w ++ ((i, v) ∷ [])
      grown = store-entries sum_hooks size 0 i v w s.valid r

  step-IsSummed :
      (o : Op ℕ) (w : Window ℕ ℕ)
      → AddsWords o
      → IsSummed size offset w
      → IsSummed size offset (step sum_hooks size 0 o w)
  unfolding sample slide
  step-IsSummed (Op.add i v) w h s =
      store-IsSummed i v (make_room sum_hooks size 0 w) h
        (make_room-room sum_hooks size 0 w s.valid).1 (make_room-IsSummed w s)
  step-IsSummed (Op.expire i) w h s = slide_loop-IsSummed w.count i w s
  step-IsSummed Op.drop_one w h s = slide_one-IsSummed w s
  step-IsSummed Op.clear w h s = absurd h

  run-IsSummed :
      (os : List (Op ℕ)) (w : Window ℕ ℕ)
      → All AddsWords os
      → IsSummed size offset w
      → IsSummed size offset (run sum_hooks size 0 os w)
  run-IsSummed [] w h s = s
  run-IsSummed (o ∷ os) w h s =
      run-IsSummed os (step sum_hooks size 0 o w) h.1 (step-IsSummed o w h.0 s)

module _ (size : ℕ) where
  -- Through any calls of `sample` (of words), `slide` and `slideOne`, the sum of a `SumSlidingWindow`
  -- stays the uint64_t sum of the values in it.
  pub sum-run :
      (os : List (Op ℕ)) (w : Window ℕ ℕ)
      → All AddsWords os
      → IsSummed size 0 w
      → sum (run sum_hooks size 0 os w)
        ≡ total (entries sum_hooks size 0 (run sum_hooks size 0 os w))
  sum-run os w h s =
      let after = run-IsSummed size 0 os w h s in
      omega (arith, after.summed, total-lt (entries sum_hooks size 0 (run sum_hooks size 0 os w)))
