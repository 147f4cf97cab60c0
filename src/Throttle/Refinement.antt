-- ===== src/Throttle/Refinement.antt =====
-- A valid throttle behaves as the queue of the uses that it holds.
use native.Mathlib.Numerals.{add-one}
use werk.Prelude.{
  ℕ, zero, suc, ◌-◌, ◌≤◌, ◌<◌, ◌≡◌, ◌≢◌, refl, ap, ◌∙◌, List, [], ◌∷◌, ◌++◌, arith, length,
  length-set, get_or, get_or-set_self, get_or-set_ne,
}
use werk.SlidingWindow.Slots.{
  next_slot, back_slot, next_slot-lt, back_slot-lt, entries_from, length-entries_from,
  entries_from-write,
}
use werk.Throttle.Spec
use werk.Throttle.{
  Throttle, force_slide_one, slide_loop, slide, make_room, store, sample, try_use_slot, request,
}

pub record IsValid (size : ℕ) (t : Throttle) : Type 0 where
  pub front_in : t.front < size
  pub count_in : t.count ≤ size
  pub indexes_size : length t.indexes ≡ size

module _ (size : ℕ) where
  abbrev pub read_slot : Throttle → ℕ → ℕ
  read_slot t i = get_or t.indexes i 0

  -- The uses that a throttle holds, oldest first.
  abbrev pub entries : Throttle → List ℕ
  entries t = entries_from size (read_slot t) t.front t.count

  length-entries : (t : Throttle) → length (entries t) ≡ t.count
  length-entries t = length-entries_from size (read_slot t) t.front t.count

  entries-empty : (t : Throttle) → t.count ≡ 0 → entries t ≡ []
  entries-empty t e = ap (entries_from size (read_slot t) t.front) e

  entries_of_pos :
      (read : ℕ → ℕ) (h n : ℕ)
      → n ≢ 0
      → entries_from size read h n ≡ read h ∷ entries_from size read (next_slot size h) (n - 1)
  entries_of_pos read h zero p = absurd (p refl)
  entries_of_pos read h (suc n) p =
      ap (λ k. read h ∷ entries_from size read (next_slot size h) k) (omega arith)

  force_slide_one-entries :
      (t : Throttle)
      → t.count ≢ 0
      → entries t ≡ read_slot t t.front ∷ entries (force_slide_one size t)
  unfolding force_slide_one
  force_slide_one-entries t p = entries_of_pos (read_slot t) t.front t.count p

  force_slide_one-fields :
      (t : Throttle)
      → ((force_slide_one size t).count ≡ t.count - 1)
        × ((force_slide_one size t).duration ≡ t.duration)
  unfolding force_slide_one
  force_slide_one-fields t = (refl, refl)

  force_slide_one-IsValid : (t : Throttle) → IsValid size t → IsValid size (force_slide_one size t)
  unfolding force_slide_one
  force_slide_one-IsValid t v = ground (arith, next_slot-lt size t.front)

  -- What `slide` does: it keeps the throttle valid and takes the leading stale uses.
  slide_loop_lem :
      (fuel now : ℕ) (t : Throttle)
      → t.count ≤ fuel
      → IsValid size t
      → IsValid size (slide_loop size fuel now t)
        × (entries (slide_loop size fuel now t)
            ≡ Spec.drop_while (Spec.stale t.duration now) (entries t))
        × ((slide_loop size fuel now t).duration ≡ t.duration)
  unfolding slide_loop
  slide_loop_lem zero now t h v = (v, ground (arith, entries-empty t), refl)
  slide_loop_lem (suc fuel) now t h v = ground (
    arith,
    entries-empty t,
    force_slide_one-entries t,
    force_slide_one-fields t,
    force_slide_one-IsValid t v,
    slide_loop_lem fuel now (force_slide_one size t),
  )

  store-IsValid :
      (now : ℕ) (t : Throttle) → IsValid size t → t.count < size → IsValid size (store size now t)
  unfolding store
  store-IsValid now t v h =
      ground (arith, length-set t.indexes (back_slot size t.front t.count) now)

  store-entries :
      (now : ℕ) (t : Throttle)
      → IsValid size t
      → t.count < size
      → entries (store size now t) ≡ entries t ++ (now ∷ [])
  unfolding store
  store-entries now t v h =
      let at = back_slot size t.front t.count in
      let t' = store size now t in
      ap (entries_from size (read_slot t') t.front) (add-one t.count)
      ∙ entries_from-write size (read_slot t) (read_slot t') now t.front t.count at v.front_in h
          refl
          (ground (arith, get_or-set_self t.indexes at now 0, back_slot-lt size t.front t.count))
          (λ j ne. get_or-set_ne t.indexes at j now 0 ne)

  duration-store : (now : ℕ) (t : Throttle) → (store size now t).duration ≡ t.duration
  unfolding store
  duration-store now t = refl

  -- A use at a time: the throttle stays valid, grants exactly if fewer than `size` uses are left in it
  -- once the stale ones are gone, and then holds those and, if it granted, the new one.
  pub request_refines :
      (now : ℕ) (t : Throttle)
      → IsValid size t
      → let (use_it, t') = request size now t in
        IsValid size t'
        × ((use_it, entries t') ≡ Spec.request size t.duration now (entries t))
        × (t'.duration ≡ t.duration)
  unfolding request try_use_slot slide sample make_room
  request_refines now t v = ground (
    arith,
    slide_loop_lem t.count now t,
    length-entries (slide_loop size t.count now t),
    store-IsValid now (slide_loop size t.count now t),
    store-entries now (slide_loop size t.count now t),
    duration-store now (slide_loop size t.count now t),
  )
