-- ===== src/Throttle.antt =====
-- src/Werk/Utility/Throttle.hpp: a limit on the uses in any stretch of `duration`, at `TIndex`
-- uint64_t.
pub mod Spec
pub mod Refinement
pub mod Rate
mod Tests
use werk.Prelude.{
  ℕ, zero, suc, ◌+◌, ◌-◌, List, [], ◌∷◌, Bool, true, false, ◌&&◌, ltb, ◌==◌, if◌then◌else◌, get_or,
  set,
}
use werk.Prelude.Words.{sub_u64}
use werk.SlidingWindow.Slots.{next_slot, back_slot}

pub record Throttle : Type 0 where
  pub duration : ℕ
  pub front : ℕ
  pub count : ℕ
  pub indexes : List ℕ

module _ (size : ℕ) where
  -- The array is not initialised: its first contents are an argument.
  pub init : ℕ → List ℕ → Throttle
  init duration indexes = record { duration = duration; front = 0; count = 0; indexes = indexes }

  pub is_full : Throttle → Bool
  is_full t = t.count == size

  pub force_slide_one : Throttle → Throttle
  unfolding next_slot
  force_slide_one t = record t { front = next_slot size t.front; count = t.count - 1 }

  pub slide_one : Throttle → Throttle
  slide_one t = if t.count == 0 then t else force_slide_one t

  -- The loop of `slide`, with fuel: each round takes one entry out, so `count` rounds are enough.
  pub slide_loop : ℕ → ℕ → Throttle → Throttle
  slide_loop zero index t = t
  slide_loop (suc fuel) index t =
      elim (ltb 0 t.count && ltb t.duration (sub_u64 index (get_or t.indexes t.front 0))) [
        | true ↦ slide_loop fuel index (force_slide_one t)
        | false ↦ t
      ]

  pub slide : ℕ → Throttle → Throttle
  unfolding slide_loop
  slide index t = slide_loop t.count index t

  pub make_room : Throttle → Throttle
  unfolding is_full
  make_room t = if is_full t then force_slide_one t else t

  pub store : ℕ → Throttle → Throttle
  unfolding back_slot
  store index t = record t {
    indexes = set t.indexes (back_slot size t.front t.count) index;
    count = t.count + 1;
  }

  pub sample : ℕ → Throttle → Throttle
  unfolding make_room store
  sample index t = store index (make_room t)

  pub try_use_slot : ℕ → Throttle → Bool × Throttle
  unfolding is_full
  try_use_slot index t = if is_full t then (false, t) else (true, sample index t)

  pub reset : Throttle → Throttle
  reset t = record t { front = 0; count = 0 }

  -- A client's use at a time: the old uses expire, and a slot is tried.
  pub request : ℕ → Throttle → Bool × Throttle
  request index t = try_use_slot index (slide index t)

  -- The requests that get a slot, newest first, in front of the earlier ones, and the throttle.
  pub granted : List ℕ → List ℕ → Throttle → List ℕ
  granted [] past t = past
  granted (now ∷ later) past t =
      let (use_it, t') = request now t in granted later (if use_it then now ∷ past else past) t'
