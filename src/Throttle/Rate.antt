-- ===== src/Throttle/Rate.antt =====
-- The limit that the throttle keeps: no more than `size` uses within `duration`.
use mathlib.Core.List.{reverse, reverse-cons, reverse-append, append_assoc}
use werk.Prelude.{
  ℕ, zero, suc, ◌+◌, ◌-◌, ◌≤◌, ◌<◌, ◌≡◌, refl, sym, ap, ◌∙◌, List, [], ◌∷◌, ◌++◌, arith, length,
  length-append, drop, All, All-append, Bool, Bool-cases, inl, inr, leb, if◌then◌else◌, subst,
}
use werk.Prelude.Words.{u64_mod}
use werk.Throttle.Spec
use werk.Throttle.Refinement.{IsValid, entries, request_refines}
use werk.Throttle.{Throttle, init, request, granted}

-- Of uses listed newest first: each comes more than `duration` after every use that is `size` or more
-- before it.
abbrev pub IsSpaced : ℕ → ℕ → List ℕ → Type 0
IsSpaced size duration [] = Unit
IsSpaced size duration (x ∷ older) =
    All (λ y. y + duration < x) (drop (size - 1) older) × IsSpaced size duration older

-- Times that do not go back, are at least `now`, and are words.
abbrev pub Ascends : ℕ → List ℕ → Type 0
Ascends now [] = Unit
Ascends now (t ∷ ts) = (now ≤ t) × (t < u64_mod) × Ascends t ts

module _ (size duration : ℕ) where
  -- All uses so far, newest first: those that the queue holds, then those that expired.
  record History (now : ℕ) (past q : List ℕ) : Type 0 where
    gone : List ℕ
    split : past ≡ reverse q ++ gone
    old : All (λ y. y + duration < now) gone
    recent : All (λ y. y ≤ now) q
    spaced : IsSpaced size duration past

  old_later :
      (now now' : ℕ) (ys : List ℕ)
      → now ≤ now'
      → All (λ y. y + duration < now) ys
      → All (λ y. y + duration < now') ys
  old_later now now' [] h a = tt
  old_later now now' (y ∷ ys) h a = (omega arith, old_later now now' ys h a.1)

  recent_later :
      (now now' : ℕ) (ys : List ℕ) → now ≤ now' → All (λ y. y ≤ now) ys → All (λ y. y ≤ now') ys
  recent_later now now' [] h a = tt
  recent_later now now' (y ∷ ys) h a = (omega arith, recent_later now now' ys h a.1)

  History-later :
      (now now' : ℕ) (past q : List ℕ) → now ≤ now' → History now past q → History now' past q
  History-later now now' past q h g = record {
    gone = g.gone;
    split = g.split;
    old = old_later now now' g.gone h g.old;
    recent = recent_later now now' q h g.recent;
    spaced = g.spaced;
  }

  -- The oldest use moves from the queue to those that expired.
  History-expire :
      (now : ℕ) (past : List ℕ) (x : ℕ) (q : List ℕ)
      → x + duration < now
      → History now past (x ∷ q)
      → History now past q
  History-expire now past x q h g = record {
    gone = x ∷ g.gone;
    split =
        g.split
        ∙ ap (λ r. r ++ g.gone) (reverse-cons x q)
        ∙ append_assoc (reverse q) (x ∷ []) g.gone;
    old = (h, g.old);
    recent = g.recent.1;
    spaced = g.spaced;
  }

  History-drop_while :
      (now : ℕ) (past q : List ℕ)
      → now < u64_mod
      → History now past q
      → History now past (Spec.drop_while (Spec.stale duration now) q)
  History-drop_while now past [] h g = g
  History-drop_while now past (x ∷ q) h g = elim (Bool-cases (Spec.stale duration now x)) [
    | inl e ↦ rw e (
        History-drop_while now past q h
          (History-expire now past x q (ground (arith, g.recent.0, e)) g))
    | inr e ↦ rw e g
  ]

  drop_gone :
      (P : ℕ → Type 0) (n : ℕ) (xs ys : List ℕ)
      → length xs ≤ n
      → All P ys
      → All P (drop n (xs ++ ys))
  drop_gone P zero [] ys h a = a
  drop_gone P (suc n) [] [] h a = tt
  drop_gone P (suc n) [] (y ∷ ys) h a = drop_gone P n [] ys (omega arith) a.1
  drop_gone P zero (x ∷ xs) ys h a = absurd (omega arith)
  drop_gone P (suc n) (x ∷ xs) ys h a = drop_gone P n xs ys (omega arith) a

  length-reverse : (xs : List ℕ) → length (reverse xs) ≡ length xs
  length-reverse [] = refl
  length-reverse (x ∷ xs) =
      omega (
        arith,
        ap length (reverse-cons x xs),
        length-append (reverse xs) (x ∷ []),
        length-reverse xs,
      )

  History-grant :
      (now : ℕ) (past q : List ℕ)
      → length q < size
      → History now past q
      → History now (now ∷ past) (q ++ (now ∷ []))
  History-grant now past q h g = record {
    gone = g.gone;
    split = ap (λ r. now ∷ r) g.split ∙ ap (λ r. r ++ g.gone) (sym (reverse-append q (now ∷ [])));
    old = g.old;
    recent = All-append _ q (now ∷ []) g.recent (omega arith, tt);
    spaced = (
      rw g.split
          (drop_gone _ (size - 1) (reverse q) g.gone (omega (arith, length-reverse q)) g.old),
      g.spaced,
    );
  }

  History-request :
      (now : ℕ) (past q : List ℕ)
      → now < u64_mod
      → History now past q
      → let (use_it, q') = Spec.request size duration now q in
        History now (if use_it then now ∷ past else past) q'
  History-request now past q h g =
      let q' = Spec.drop_while (Spec.stale duration now) q in
      let g' = History-drop_while now past q h g in
      elim (Bool-cases (leb size (length q'))) [
        | inl e ↦ rw e g'
        | inr e ↦ rw e (History-grant now past q' (ground (arith, e)) g')
      ]

  granted-IsSpaced :
      (times : List ℕ) (now : ℕ) (past : List ℕ) (t : Throttle)
      → Ascends now times
      → IsValid size t
      → t.duration ≡ duration
      → History now past (entries size t)
      → IsSpaced size duration (granted size times past t)
  unfolding granted
  granted-IsSpaced [] now past t a v d g = g.spaced
  granted-IsSpaced (now' ∷ times) now past t a v d g =
      let after = request_refines size now' t v in
      let g' =
        History-request now' past (entries size t) a.1 (History-later now now' past _ a.0 g) in
      granted-IsSpaced times now' _ (request size now' t).1 a.2 after.0 (after.2 ∙ d) (
        subst (λ (p : Bool × List ℕ). History now' (if p.0 then now' ∷ past else past) p.1)
          (sym (after.1 ∙ ap (λ k. Spec.request size k now' (entries size t)) d)) g')

-- From a fresh throttle, at times that do not go back and are words: each use that is granted comes
-- more than `duration` after every use that was granted `size` or more uses before it.
pub granted-init-IsSpaced :
    (size duration : ℕ) (indexes times : List ℕ)
    → 0 < size
    → length indexes ≡ size
    → Ascends 0 times
    → IsSpaced size duration (granted size times [] (init size duration indexes))
unfolding init
granted-init-IsSpaced size duration indexes times h e a =
    granted-IsSpaced size duration times 0 [] _ a
      (record { front_in = h; count_in = omega arith; indexes_size = e }) refl
      (record { gone = []; split = refl; old = tt; recent = tt; spaced = tt })
