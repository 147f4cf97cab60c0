-- ===== src/Statistics/Order/Lazy.antt =====
-- Sorting when the samples are read cannot be told from keeping them in order.
use werk.Prelude.{
  ℕ, suc, zero, ◌-◌, ◌≤◌, ◌<◌, ◌≡◌, refl, ◌∙◌, ap, sym, subst, List, [], ◌∷◌, ◌++◌, Bool, true,
  false, if◌then◌else◌, length, get_or, arith,
}
use werk.Statistics.Order.{
  Order, new_order, count, sample, reset, put, sort, update, read_from, read_at, min, max, fractile,
}

abbrev pub Sorted : List ℕ → Type 0
Sorted [] = Unit
Sorted (x ∷ []) = Unit
Sorted (x ∷ y ∷ ys) = (x ≤ y) × Sorted (y ∷ ys)

put-Sorted : (t : ℕ) (xs : List ℕ) → Sorted xs → Sorted (put t xs)
unfolding put
put-Sorted t [] h = tt
put-Sorted t (x ∷ []) h = ground arith
put-Sorted t (x ∷ y ∷ ys) h = ground (arith, put-Sorted t (y ∷ ys) h.1)

sort-Sorted : (xs : List ℕ) → Sorted (sort xs)
unfolding sort
sort-Sorted [] = tt
sort-Sorted (x ∷ xs) = put-Sorted x (sort xs) (sort-Sorted xs)

put-put : (t u : ℕ) (xs : List ℕ) → put t (put u xs) ≡ put u (put t xs)
unfolding put
put-put t u [] = ground arith
put-put t u (x ∷ xs) = ground (arith, put-put t u xs)

sort-append : (xs : List ℕ) (t : ℕ) → sort (xs ++ (t ∷ [])) ≡ put t (sort xs)
unfolding sort put
sort-append [] t = refl
sort-append (x ∷ xs) t = ap (put x) (sort-append xs t) ∙ put-put x t (sort xs)

put-least : (x : ℕ) (xs : List ℕ) → Sorted (x ∷ xs) → put x xs ≡ x ∷ xs
unfolding put
put-least x [] h = refl
put-least x (y ∷ ys) h = ground arith

sort-same : (xs : List ℕ) → Sorted xs → sort xs ≡ xs
unfolding sort
sort-same [] h = refl
sort-same (x ∷ []) h = refl
sort-same (x ∷ y ∷ ys) h = ap (put x) (sort-same (y ∷ ys) h.1) ∙ put-least x (y ∷ ys) h

length-put : (t : ℕ) (xs : List ℕ) → length (put t xs) ≡ suc (length xs)
unfolding put
length-put t [] = refl
length-put t (x ∷ xs) = ground (arith, length-put t xs)

length-sort : (xs : List ℕ) → length (sort xs) ≡ length xs
unfolding sort
length-sort [] = refl
length-sort (x ∷ xs) = length-put x (sort xs) ∙ ap suc (length-sort xs)

-- What is known of samples that are not marked as dirty.
abbrev pub Kept : Bool → List ℕ → Type 0
Kept true xs = Unit
Kept false xs = Sorted xs

abbrev pub IsKept : Order → Type 0
IsKept s = Kept s.dirty s.samples

update-Kept : (d : Bool) (xs : List ℕ) → Kept d xs → (if d then sort xs else xs) ≡ sort xs
update-Kept true xs h = refl
update-Kept false xs h = sym (sort-same xs h)

update-samples : (s : Order) → IsKept s → (update s).samples ≡ sort s.samples
unfolding update
update-samples s h = field_if s.dirty ∙ update-Kept s.dirty s.samples h
  where
    field_if :
        (d : Bool)
        → (if d then record { samples = sort s.samples; dirty = false } else s).samples
          ≡ (if d then sort s.samples else s.samples)
    field_if true = refl
    field_if false = refl

update-IsKept : (s : Order) → IsKept s → IsKept (update s)
unfolding update
update-IsKept s h = kept_if s.dirty h
  where
    kept_if :
        (d : Bool)
        → IsKept s
        → IsKept (if d then record { samples = sort s.samples; dirty = false } else s)
    kept_if true h = sort-Sorted s.samples
    kept_if false h = h

-- A read of sorted samples.
abbrev pub read_sorted : (ℕ → ℕ) → List ℕ → ℕ
read_sorted index xs = get_or xs (index (length xs)) 0

-- What a read gives and leaves.
abbrev pub IsRead : (ℕ → ℕ) → Order → ℕ × Order → Type 0
IsRead index s (v, s') =
    (v ≡ read_sorted index (sort s.samples)) × IsKept s' × (sort s'.samples ≡ sort s.samples)

read_from-IsRead :
    (index : ℕ → ℕ) (xs : List ℕ) (s : Order)
    → s.samples ≡ xs
    → IsKept s
    → IsRead index s (read_from index xs s)
unfolding read_from sort
read_from-IsRead index [] s e h = (sym (ap (λ ys. read_sorted index (sort ys)) e), h, refl)
read_from-IsRead index (x ∷ xs) s e h = (
  ap (read_sorted index) (update-samples s h),
  update-IsKept s h,
  ap sort (update-samples s h) ∙ sort-same (sort s.samples) (sort-Sorted s.samples),
)

pub read_at-IsRead : (index : ℕ → ℕ) (s : Order) → IsKept s → IsRead index s (read_at index s)
unfolding read_at
read_at-IsRead index s h = read_from-IsRead index s.samples s refl h

-- Uses of the samples, with what they return.
pub data Call : Type 0 where
  add : ℕ → Call
  clear : Call
  read : (ℕ → ℕ) → Call

abbrev pub call : Call → Order → List ℕ × Order
call (add t) s = ([], sample t s)
call clear s = ([], reset s)
call (read index) s = let (v, s') = read_at index s in (v ∷ [], s')

abbrev pub calls : List Call → Order → List ℕ
calls [] s = []
calls (c ∷ cs) s = let (vs, s') = call c s in vs ++ calls cs s'

-- The same with samples that are kept in order.
abbrev pub sorted_calls : List Call → List ℕ → List ℕ
sorted_calls [] xs = []
sorted_calls (add t ∷ cs) xs = sorted_calls cs (put t xs)
sorted_calls (clear ∷ cs) xs = sorted_calls cs []
sorted_calls (read index ∷ cs) xs = read_sorted index xs ∷ sorted_calls cs xs

calls-sorted_calls :
    (cs : List Call) (s : Order) → IsKept s → calls cs s ≡ sorted_calls cs (sort s.samples)
unfolding sample reset sort
calls-sorted_calls [] s h = refl
calls-sorted_calls (add t ∷ cs) s h =
    calls-sorted_calls cs (sample t s) tt ∙ ap (sorted_calls cs) (sort-append s.samples t)
calls-sorted_calls (clear ∷ cs) s h = calls-sorted_calls cs (reset s) tt
calls-sorted_calls (read index ∷ cs) s h =
    let r = read_at-IsRead index s h in
    ap (λ v. v ∷ calls cs (read_at index s).1) r.0
    ∙ ap (λ vs. read_sorted index (sort s.samples) ∷ vs)
        (calls-sorted_calls cs (read_at index s).1 r.1 ∙ ap (sorted_calls cs) r.2)

-- Whatever is sampled, reset and read, in whatever order, from no samples on, each read gives what
-- it would give had the samples been kept in order all along.
pub calls_lem : (cs : List Call) → calls cs new_order ≡ sorted_calls cs []
unfolding new_order sort
calls_lem cs = calls-sorted_calls cs new_order tt

get_or-Sorted :
    (xs : List ℕ) (i j : ℕ) → Sorted xs → i ≤ j → j < length xs → get_or xs i 0 ≤ get_or xs j 0
get_or-Sorted [] i j h le lt = elim lt [ ]
get_or-Sorted (x ∷ []) zero zero h le lt = omega arith
get_or-Sorted (x ∷ []) zero (suc j) h le lt = omega arith
get_or-Sorted (x ∷ y ∷ ys) zero zero h le lt = omega arith
get_or-Sorted (x ∷ y ∷ ys) zero (suc j) h le lt =
    omega (arith, h.0, get_or-Sorted (y ∷ ys) zero j h.1 (omega arith) (omega arith))
get_or-Sorted (x ∷ xs) (suc i) zero h le lt = elim le [ ]
get_or-Sorted (x ∷ []) (suc i) (suc j) h le lt = omega arith
get_or-Sorted (x ∷ y ∷ ys) (suc i) (suc j) h le lt =
    get_or-Sorted (y ∷ ys) i j h.1 (omega arith) (omega arith)

reads-ordered :
    (f g : ℕ → ℕ) (s : Order)
    → IsKept s
    → f (count s) ≤ g (count s)
    → g (count s) < count s
    → (read_at f s).0 ≤ (read_at g s).0
reads-ordered f g s h le lt =
    let ordered =
      get_or-Sorted (sort s.samples) (f (length (sort s.samples))) (g (length (sort s.samples)))
        (sort-Sorted s.samples) (subst (λ n. f n ≤ g n) (sym (length-sort s.samples)) le)
        (subst (λ n. g n < n) (sym (length-sort s.samples)) lt) in
    omega (arith, (read_at-IsRead f s h).0, (read_at-IsRead g s h).0, ordered)

-- A larger fractile is no smaller a value, and none is below the minimum or above the maximum, as
-- long as both fall below the count.
pub fractile-bounds :
    (low high : ℕ → ℕ) (s : Order)
    → IsKept s
    → low (count s) ≤ high (count s)
    → high (count s) < count s
    → ((min s).0 ≤ (fractile low s).0)
      × ((fractile low s).0 ≤ (fractile high s).0)
      × ((fractile high s).0 ≤ (max s).0)
unfolding min max fractile
fractile-bounds low high s h le lt = (
  reads-ordered (λ n. 0) low s h (omega arith) (omega arith),
  reads-ordered low high s h le lt,
  reads-ordered high (λ n. n - 1) s h (omega arith) (omega arith),
)
