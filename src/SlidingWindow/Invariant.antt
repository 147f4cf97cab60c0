-- ===== src/SlidingWindow/Invariant.antt =====
-- The representation invariant of a window: every array access of the code is in range.
use werk.Prelude.{ℕ, zero, suc, ◌≤◌, ◌<◌, ◌≡◌, arith, length, length-set}
use werk.SlidingWindow.Slots.{back_slot, next_slot-lt}
use werk.SlidingWindow.{
  Hooks, Window, force_slide_one, slide_one, slide_loop, make_room, store, sample, reset,
}

pub record IsValid {V S : Type 0} (size : ℕ) (w : Window V S) : Type 0 where
  pub front_in : w.front < size
  pub count_in : w.count ≤ size
  pub indexes_size : length w.indexes ≡ size
  pub values_size : length w.values ≡ size

module _ {V S : Type 0} (hooks : Hooks V S) (size : ℕ) (junk : V) where
  pub force_slide_one-IsValid :
      (w : Window V S) → IsValid size w → IsValid size (force_slide_one hooks size junk w)
  unfolding force_slide_one
  force_slide_one-IsValid w v = ground (arith, next_slot-lt size w.front)

  pub slide_one-IsValid :
      (w : Window V S) → IsValid size w → IsValid size (slide_one hooks size junk w)
  unfolding slide_one
  slide_one-IsValid w v = ground (arith, force_slide_one-IsValid w v)

  pub slide_loop-IsValid :
      (fuel index : ℕ) (w : Window V S)
      → IsValid size w
      → IsValid size (slide_loop hooks size junk fuel index w)
  unfolding slide_loop
  slide_loop-IsValid zero index w v = v
  slide_loop-IsValid (suc fuel) index w v = ground (
    arith,
    slide_loop-IsValid fuel index (force_slide_one hooks size junk w) (force_slide_one-IsValid w v),
  )

  pub make_room-room :
      (w : Window V S)
      → IsValid size w
      → IsValid size (make_room hooks size junk w) × ((make_room hooks size junk w).count < size)
  unfolding make_room force_slide_one
  make_room-room w v = ground (arith, next_slot-lt size w.front)

  pub store-IsValid :
      (i : ℕ) (x : V) (w : Window V S)
      → IsValid size w
      → w.count < size
      → IsValid size (store hooks size junk i x w)
  unfolding store
  store-IsValid i x w v h = ground (
    arith,
    length-set w.indexes (back_slot size w.front w.count) i,
    length-set w.values (back_slot size w.front w.count) x,
  )

  pub sample-IsValid :
      (i : ℕ) (x : V) (w : Window V S)
      → IsValid size w
      → IsValid size (sample hooks size junk i x w)
  unfolding sample
  sample-IsValid i x w v =
      store-IsValid i x (make_room hooks size junk w) (make_room-room w v).0 (make_room-room w v).1

  pub reset-IsValid : (w : Window V S) → IsValid size w → IsValid size (reset hooks size junk w)
  unfolding reset
  reset-IsValid w v = ground arith
