-- ===== src/SlidingWindow.antt =====
-- src/Werk/Utility/SlidingWindow.hpp: the base window over two fixed arrays, and its two instances.
-- `TIndex` is uint64_t, as in the tests; `S` is the state of the implementing class.
pub mod Slots
pub mod Spec
pub mod Invariant
pub mod Refinement
pub mod Sum
pub mod Statistics
mod Tests
use werk.Prelude.{
  ℕ, zero, suc, ◌+◌, ◌-◌, List, Bool, true, false, ◌&&◌, ltb, ◌==◌, if◌then◌else◌, get_or, set,
}
use werk.Prelude.Words.{sub_u64, add_u64}
use Slots.{next_slot, back_slot}

-- `onAddValue` and `onRemoveValue` of the implementing class; the second may read `count()`.
pub record Hooks (V S : Type 0) : Type 0 where
  pub on_add_value : ℕ → V → S → S
  pub on_remove_value : ℕ → ℕ → V → S → S

pub record Window (V S : Type 0) : Type 0 where
  pub duration : ℕ
  pub front : ℕ
  pub count : ℕ
  pub indexes : List ℕ
  pub values : List V
  pub impl : S

-- `size` is the template argument; `junk` is what a read out of the arrays would give, which the
-- invariant rules out.
module _ {V S : Type 0} (hooks : Hooks V S) (size : ℕ) (junk : V) where
  -- The arrays are not initialised: their first contents are arguments.
  pub init : ℕ → List ℕ → List V → S → Window V S
  init duration indexes values s = record {
    duration = duration;
    front = 0;
    count = 0;
    indexes = indexes;
    values = values;
    impl = s;
  }

  pub is_empty : Window V S → Bool
  is_empty w = w.count == 0

  pub is_full : Window V S → Bool
  is_full w = w.count == size

  pub front_index : Window V S → ℕ
  front_index w = get_or w.indexes w.front 0

  pub front_value : Window V S → V
  front_value w = get_or w.values w.front junk

  pub force_slide_one : Window V S → Window V S
  unfolding front_index front_value next_slot
  force_slide_one w = record w {
    front = next_slot size w.front;
    count = w.count - 1;
    impl = hooks.on_remove_value w.count (front_index w) (front_value w) w.impl;
  }

  pub slide_one : Window V S → Window V S
  slide_one w = if w.count == 0 then w else force_slide_one w

  -- The loop of `slide`, with fuel: each round takes one entry out, so `count` rounds are enough.
  pub slide_loop : ℕ → ℕ → Window V S → Window V S
  slide_loop zero index w = w
  slide_loop (suc fuel) index w =
      elim (ltb 0 w.count && ltb w.duration (sub_u64 index (get_or w.indexes w.front 0))) [
        | true ↦ slide_loop fuel index (force_slide_one w)
        | false ↦ w
      ]

  pub slide : ℕ → Window V S → Window V S
  unfolding slide_loop
  slide index w = slide_loop w.count index w

  pub make_room : Window V S → Window V S
  unfolding is_full
  make_room w = if is_full w then force_slide_one w else w

  pub store : ℕ → V → Window V S → Window V S
  unfolding back_slot
  store index value w = record w {
    indexes = set w.indexes (back_slot size w.front w.count) index;
    values = set w.values (back_slot size w.front w.count) value;
    count = w.count + 1;
    impl = hooks.on_add_value index value w.impl;
  }

  pub sample : ℕ → V → Window V S → Window V S
  unfolding make_room store
  sample index value w = store index value (make_room w)

  -- `BaseSlidingWindow::reset`: the implementing class is not told.
  pub reset : Window V S → Window V S
  reset w = record w { front = 0; count = 0 }

-- `SlidingWindow`: hooks that do nothing.
pub plain_hooks : (V S : Type 0) → Hooks V S
plain_hooks V S = record { on_add_value = λ i v s. s; on_remove_value = λ n i v s. s }

-- `SumSlidingWindow` at `TValue` uint64_t: the state is `_sum`.
pub sum_hooks : Hooks ℕ ℕ
sum_hooks = record { on_add_value = λ i v s. add_u64 s v; on_remove_value = λ n i v s. sub_u64 s v }

pub sum : Window ℕ ℕ → ℕ
sum w = w.impl
