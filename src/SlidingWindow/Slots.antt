-- ===== src/SlidingWindow/Slots.antt =====
-- Positions in a circular array of `size` slots, shared by the sliding window and the throttle.
use werk.Prelude.{
  ℕ, zero, suc, ◌+◌, ◌-◌, ◌<◌, ◌≡◌, ◌≢◌, refl, sym, ◌∙◌, ap, ap₂, List, [], ◌∷◌, ◌++◌, arith, leb,
  ◌==◌, if◌then◌else◌, length,
}

-- `_front += 1; if (_front == size) _front = 0;`
unfoldable pub next_slot : ℕ → ℕ → ℕ
next_slot size front = if (front + 1) == size then 0 else front + 1

-- `backLocation()`
unfoldable pub back_slot : ℕ → ℕ → ℕ → ℕ
back_slot size front count =
    if leb size (front + count) then front + count - size else front + count

pub next_slot-lt : (size h : ℕ) → h < size → next_slot size h < size
unfolding next_slot
next_slot-lt size h p = ground arith

pub back_slot-lt : (size h n : ℕ) → h < size → n < size → back_slot size h n < size
unfolding back_slot
back_slot-lt size h n p q = ground arith

pub back_slot-zero : (size h : ℕ) → h < size → back_slot size h 0 ≡ h
unfolding back_slot
back_slot-zero size h p = ground arith

pub back_slot-suc :
    (size h n : ℕ)
    → h < size
    → suc n < size
    → back_slot size h (suc n) ≡ back_slot size (next_slot size h) n
unfolding back_slot next_slot
back_slot-suc size h n p q = ground arith

pub back_slot-ne : (size h n : ℕ) → h < size → suc n < size → back_slot size h (suc n) ≢ h
unfolding back_slot
back_slot-ne size h n p q = ground arith

module _ {ℓ} {A : Type ℓ} (size : ℕ) where
  -- What `read` gives at the `n` slots from `h` on.
  abbrev pub entries_from : (ℕ → A) → ℕ → ℕ → List A
  entries_from read h zero = []
  entries_from read h (suc n) = read h ∷ entries_from read (next_slot size h) n

  pub length-entries_from : (read : ℕ → A) (h n : ℕ) → length (entries_from read h n) ≡ n
  length-entries_from read h zero = refl
  length-entries_from read h (suc n) = ap suc (length-entries_from read (next_slot size h) n)

  -- A write at the slot behind the last entry appends it, and disturbs no entry.
  pub entries_from-write :
      (read read' : ℕ → A) (a : A) (h n i : ℕ)
      → h < size
      → n < size
      → i ≡ back_slot size h n
      → read' i ≡ a
      → ((j : ℕ) → i ≢ j → read' j ≡ read j)
      → entries_from read' h (suc n) ≡ entries_from read h n ++ (a ∷ [])
  entries_from-write read read' a h zero i p q e hit miss =
      ap (λ x. x ∷ []) (ap read' (sym (e ∙ back_slot-zero size h p)) ∙ hit)
  entries_from-write read read' a h (suc n) i p q e hit miss =
      ap₂ ◌∷◌ (miss h (λ k. back_slot-ne size h n p q (sym e ∙ k))) (
        entries_from-write read read' a (next_slot size h) n i (next_slot-lt size h p) (omega arith)
          (e ∙ back_slot-suc size h n p q) hit miss)
