-- ===== src/SlidingWindow/Refinement.antt =====
-- A valid window behaves as the queue of the entries that it holds.
use werk.Prelude.{
  ℕ, zero, suc, ◌-◌, ◌≤◌, ◌<◌, ◌≡◌, ◌≢◌, refl, ap, ap₂, ◌∙◌, List, [], ◌∷◌, ◌++◌, arith, length,
  get_or, get_or-set_self, get_or-set_ne,
}
use native.Mathlib.Numerals.{add-one}
use werk.SlidingWindow.Slots.{
  next_slot, back_slot, back_slot-lt, entries_from, length-entries_from, entries_from-write,
}
use werk.SlidingWindow.Spec
use werk.SlidingWindow.Spec.{Op}
use werk.SlidingWindow.Invariant.{
  IsValid, slide_one-IsValid, slide_loop-IsValid, make_room-room, sample-IsValid, reset-IsValid,
}
use werk.SlidingWindow.{
  slide, sample, reset, Hooks, Window, force_slide_one, slide_one, slide_loop, make_room, store,
}

module _ {V S : Type 0} (hooks : Hooks V S) (size : ℕ) (junk : V) where
  abbrev pub read_slot : Window V S → ℕ → ℕ × V
  read_slot w i = (get_or w.indexes i 0, get_or w.values i junk)

  -- The entries of a window, oldest first.
  abbrev pub entries : Window V S → List (ℕ × V)
  entries w = entries_from size (read_slot w) w.front w.count

  pub length-entries : (w : Window V S) → length (entries w) ≡ w.count
  length-entries w = length-entries_from size (read_slot w) w.front w.count

  entries_of_pos :
      (read : ℕ → ℕ × V) (h n : ℕ)
      → n ≢ 0
      → entries_from size read h n ≡ read h ∷ entries_from size read (next_slot size h) (n - 1)
  entries_of_pos read h zero p = absurd (p refl)
  entries_of_pos read h (suc n) p =
      ap (λ k. read h ∷ entries_from size read (next_slot size h) k) (omega arith)

  pub force_slide_one-entries :
      (w : Window V S)
      → w.count ≢ 0
      → entries w ≡ read_slot w w.front ∷ entries (force_slide_one hooks size junk w)
  unfolding force_slide_one
  force_slide_one-entries w p = entries_of_pos (read_slot w) w.front w.count p

  entries-empty : (w : Window V S) → w.count ≡ 0 → entries w ≡ []
  entries-empty w e = ap (entries_from size (read_slot w) w.front) e

  slide_one-entries :
      (w : Window V S) → entries (slide_one hooks size junk w) ≡ Spec.tail (entries w)
  unfolding slide_one
  slide_one-entries w = ground (arith, entries-empty w, force_slide_one-entries w)

  count-force_slide_one : (w : Window V S) → (force_slide_one hooks size junk w).count ≡ w.count - 1
  unfolding force_slide_one
  count-force_slide_one w = refl

  duration-force_slide_one :
      (w : Window V S) → (force_slide_one hooks size junk w).duration ≡ w.duration
  unfolding force_slide_one
  duration-force_slide_one w = refl

  slide_loop-entries :
      (fuel index : ℕ) (w : Window V S)
      → w.count ≤ fuel
      → entries (slide_loop hooks size junk fuel index w)
        ≡ Spec.drop_while (Spec.stale w.duration index) (entries w)
  unfolding slide_loop
  slide_loop-entries zero index w h = ground (arith, entries-empty w)
  slide_loop-entries (suc fuel) index w h = ground (
    arith,
    entries-empty w,
    force_slide_one-entries w,
    count-force_slide_one w,
    duration-force_slide_one w,
    slide_loop-entries fuel index (force_slide_one hooks size junk w),
  )

  pub store-entries :
      (i : ℕ) (x : V) (w : Window V S)
      → IsValid size w
      → w.count < size
      → entries (store hooks size junk i x w) ≡ entries w ++ ((i, x) ∷ [])
  unfolding store
  store-entries i x w v h =
      let at = back_slot size w.front w.count in
      let w' = store hooks size junk i x w in
      ap (entries_from size (read_slot w') w.front) (add-one w.count)
      ∙ entries_from-write size (read_slot w) (read_slot w') (i, x) w.front w.count at v.front_in h
          refl
          (ground (
            arith,
            get_or-set_self w.indexes at i 0,
            get_or-set_self w.values at x junk,
            back_slot-lt size w.front w.count,
          ))
          (λ j ne.
            ap₂ (λ a b. (a, b)) (get_or-set_ne w.indexes at j i 0 ne)
              (get_or-set_ne w.values at j x junk ne))

  make_room-entries :
      (w : Window V S)
      → IsValid size w
      → entries (make_room hooks size junk w) ≡ Spec.evict size (entries w)
  unfolding make_room
  make_room-entries w v =
      ground (arith, length-entries w, force_slide_one-entries w, entries-empty w)

  -- A client's call.
  abbrev pub step : Op V → Window V S → Window V S
  step (Op.add i v) w = sample hooks size junk i v w
  step (Op.expire i) w = slide hooks size junk i w
  step Op.drop_one w = slide_one hooks size junk w
  step Op.clear w = reset hooks size junk w

  abbrev pub run : List (Op V) → Window V S → Window V S
  run [] w = w
  run (o ∷ os) w = run os (step o w)

  pub step-IsValid : (o : Op V) (w : Window V S) → IsValid size w → IsValid size (step o w)
  unfolding slide
  step-IsValid (Op.add i v) w h = sample-IsValid hooks size junk i v w h
  step-IsValid (Op.expire i) w h = slide_loop-IsValid hooks size junk w.count i w h
  step-IsValid Op.drop_one w h = slide_one-IsValid hooks size junk w h
  step-IsValid Op.clear w h = reset-IsValid hooks size junk w h

  duration-slide_loop :
      (fuel index : ℕ) (w : Window V S)
      → (slide_loop hooks size junk fuel index w).duration ≡ w.duration
  unfolding slide_loop
  duration-slide_loop zero index w = refl
  duration-slide_loop (suc fuel) index w = ground (
    arith,
    duration-slide_loop fuel index (force_slide_one hooks size junk w),
    duration-force_slide_one w,
  )

  pub duration-step : (o : Op V) (w : Window V S) → (step o w).duration ≡ w.duration
  unfolding slide slide_one sample make_room store reset
  duration-step (Op.add i v) w = ground (arith, duration-force_slide_one w)
  duration-step (Op.expire i) w = duration-slide_loop w.count i w
  duration-step Op.drop_one w = ground (arith, duration-force_slide_one w)
  duration-step Op.clear w = refl

  step-entries :
      (o : Op V) (w : Window V S)
      → IsValid size w
      → entries (step o w) ≡ Spec.step size w.duration o (entries w)
  unfolding slide sample reset
  step-entries (Op.add i v) w h =
      let room = make_room-room hooks size junk w h in
      store-entries i v (make_room hooks size junk w) room.0 room.1
      ∙ ap (λ q. q ++ ((i, v) ∷ [])) (make_room-entries w h)
  step-entries (Op.expire i) w h = slide_loop-entries w.count i w (omega arith)
  step-entries Op.drop_one w h = slide_one-entries w
  step-entries Op.clear w h = refl

  -- After any sequence of calls, a valid window is valid and holds what the bounded queue of its
  -- entries holds after the same calls: the oldest entry makes room, `slide` takes exactly the
  -- leading stale entries, and `reset` empties it.
  pub run_refines :
      (os : List (Op V)) (w : Window V S)
      → IsValid size w
      → IsValid size (run os w) × (entries (run os w) ≡ Spec.run size w.duration os (entries w))
  run_refines [] w h = (h, refl)
  run_refines (o ∷ os) w h =
      let rest = run_refines os (step o w) (step-IsValid o w h) in
      (rest.0, rest.1 ∙ ap₂ (λ d q. Spec.run size d os q) (duration-step o w) (step-entries o w h))
