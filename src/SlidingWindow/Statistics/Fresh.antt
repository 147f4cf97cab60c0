-- ===== src/SlidingWindow/Statistics/Fresh.antt =====
-- Statistics of a window that is empty.
use werk.Prelude.{
  ℕ, zero, suc, ◌<◌, ◌≡◌, refl, sym, subst, ◌⊎◌, inl, inr, Bool, true, false, ◌&&◌, List, [], ◌∷◌,
  arith, ltb, ◌==◌, ==_iff, if-true, if-false, Bool-cases, get_or,
}
use werk.Statistics.{Doubles}
use werk.SlidingWindow.{
  Hooks, Window, force_slide_one, slide_one, slide_loop, slide, store, sample, sub_u64,
}
use werk.SlidingWindow.Spec.{Op}
use werk.SlidingWindow.Statistics.{Weighted, new_weighted, statistics_hooks, reset}

module _ {D : Type 0} (d : Doubles D) (is_zero : D → Bool) (size : ℕ) (junk : D) where
  abbrev hooks : Hooks D (Weighted D)
  hooks = statistics_hooks d is_zero

  -- An empty window has no trace of the values that were in it.
  abbrev pub IsFresh : Window D (Weighted D) → Type 0
  IsFresh w = w.count ≡ 0 → w.impl ≡ new_weighted d is_zero

  force_slide_one-IsFresh :
      (w : Window D (Weighted D)) → 0 < w.count → IsFresh (force_slide_one hooks size junk w)
  unfolding force_slide_one statistics_hooks
  force_slide_one-IsFresh w h e = if-true (w.count == 1) _ _ ((==_iff w.count 1).1 (omega arith))

  slide_loop-IsFresh :
      (fuel index : ℕ) (w : Window D (Weighted D))
      → IsFresh w
      → IsFresh (slide_loop hooks size junk fuel index w)
  unfolding slide_loop
  slide_loop-IsFresh zero index w f = f
  slide_loop-IsFresh (suc fuel) index w f =
      let next = force_slide_one hooks size junk w in
      elim (guard-cases w.count (ltb w.duration (sub_u64 index (get_or w.indexes w.front 0)))) [
        | inl (h, e) ↦
            rw (e, slide_loop) (slide_loop-IsFresh fuel index next (force_slide_one-IsFresh w h))
        | inr e ↦ rw (e, slide_loop) f
      ]
    where
      guard-cases :
          (n : ℕ) (b : Bool) → ((0 < n) × ((ltb 0 n && b) ≡ true)) ⊎ ((ltb 0 n && b) ≡ false)
      guard-cases n true = elim (Bool-cases (ltb 0 n)) [
        | inl e ↦ inl (ground arith, ground arith)
        | inr e ↦ inr (ground arith)
      ]
      guard-cases n false = inr (ground arith)

  abbrev pub step : Op D → Window D (Weighted D) → Window D (Weighted D)
  step (Op.add i v) w = sample hooks size junk i v w
  step (Op.expire i) w = slide hooks size junk i w
  step Op.drop_one w = slide_one hooks size junk w
  step Op.clear w = reset d is_zero size junk w

  abbrev pub run : List (Op D) → Window D (Weighted D) → Window D (Weighted D)
  run [] w = w
  run (o ∷ os) w = run os (step o w)

  step-IsFresh : (o : Op D) (w : Window D (Weighted D)) → IsFresh w → IsFresh (step o w)
  unfolding sample store slide slide_one reset
  step-IsFresh (Op.add i v) w f = λ e. absurd (omega (arith, e))
  step-IsFresh (Op.expire i) w f = slide_loop-IsFresh w.count i w f
  step-IsFresh Op.drop_one w f = elim (Bool-cases (w.count == 0)) [
    | inl e ↦ subst IsFresh (sym (if-true (w.count == 0) _ _ e)) f
    | inr e ↦
        subst IsFresh (sym (if-false (w.count == 0) _ _ e))
          (force_slide_one-IsFresh w (ground arith))
  ]
  step-IsFresh Op.clear w f = λ e. refl

  -- Whatever is sampled, slid and reset: whenever the window is empty, its statistics are new, with
  -- no trace of the values that have been in it.
  pub run-IsFresh :
      (os : List (Op D)) (w : Window D (Weighted D))
      → IsFresh w
      → (run os w).count ≡ 0
      → (run os w).impl ≡ new_weighted d is_zero
  run-IsFresh [] w f e = f e
  run-IsFresh (o ∷ os) w f e = run-IsFresh os (step o w) (step-IsFresh o w f) e
