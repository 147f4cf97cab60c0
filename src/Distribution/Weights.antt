-- ===== src/Distribution/Weights.antt =====
-- A distribution against the samples that it was given.
use werk.Prelude.{
  ℕ, suc, ◌%◌, ◌≤◌, ◌<◌, ◌≡◌, refl, sym, ap, ap₂, ◌∙◌, inl, inr, List, [], ◌∷◌, ◌++◌, arith, leb,
  ◌==◌, if◌then◌else◌, Bool-cases, length, length-append,
}
use werk.Prelude.Words.{u64_mod}
use mathlib.Core.List.{append-nil}
use werk.Statistics.{Doubles}
use werk.Distribution.{
  DiscreteDistribution, new_distribution, find_weight, weight, sum_up_to, cumulative_weight, cdf,
  add_weight, sample, reset,
}

pub data Call (D : Type 0) : Type 0 where
  sample_call : ℕ → D → Call D
  reset_call : Call D

-- The keys ascend strictly, from `lo` on.
abbrev pub Sorted : {D : Type 0} → ℕ → List (ℕ × D) → Type 0
Sorted lo [] = Unit
Sorted lo ((u, w) ∷ m) = (lo ≤ u) × Sorted (suc u) m

-- The entries up to a value.
abbrev pub up_to : {D : Type 0} → ℕ → List (ℕ × D) → List (ℕ × D)
up_to t [] = []
up_to t ((u, w) ∷ m) = if leb u t then (u, w) ∷ up_to t m else up_to t m

up_to-none : {D : Type 0} (t lo : ℕ) (m : List (ℕ × D)) → t < lo → Sorted lo m → up_to t m ≡ []
up_to-none t lo [] h s = refl
up_to-none t lo ((u, w) ∷ m) h s = ground (arith, up_to-none t (suc u) m)

-- The samples of one value.
abbrev pub of_value : {D : Type 0} → ℕ → List (ℕ × D) → List (ℕ × D)
of_value t [] = []
of_value t ((u, w) ∷ m) = if u == t then (u, w) ∷ of_value t m else of_value t m

of_value-append :
    {D : Type 0} (t : ℕ) (xs ys : List (ℕ × D))
    → of_value t (xs ++ ys) ≡ of_value t xs ++ of_value t ys
of_value-append t [] ys = refl
of_value-append t ((u, w) ∷ m) ys = ground (arith, of_value-append t m ys)

-- The samples since the last reset, oldest first.
abbrev pub samples_of : {D : Type 0} → List (Call D) → List (ℕ × D) → List (ℕ × D)
samples_of [] since = since
samples_of (sample_call t dw ∷ cs) since = samples_of cs (since ++ ((t, dw) ∷ []))
samples_of (reset_call ∷ cs) since = samples_of cs []

module _ {D : Type 0} (d : Doubles D) where
  -- Weights added up from the left.
  abbrev pub sum_from : D → List (ℕ × D) → D
  sum_from x [] = x
  sum_from x ((u, w) ∷ m) = sum_from (d.add x w) m

  abbrev pub run : List (Call D) → DiscreteDistribution D → DiscreteDistribution D
  run [] p = p
  run (sample_call t dw ∷ cs) p = run cs (sample d t dw p)
  run (reset_call ∷ cs) p = run cs (reset d p)

  sum_from-last :
      (x : D) (m : List (ℕ × D)) (t : ℕ) (dw : D)
      → sum_from x (m ++ ((t, dw) ∷ [])) ≡ d.add (sum_from x m) dw
  sum_from-last x [] t dw = refl
  sum_from-last x ((u, w) ∷ m) t dw = sum_from-last (d.add x w) m t dw

  sum_up_to_lem :
      (t lo : ℕ) (m : List (ℕ × D)) (x : D)
      → Sorted lo m
      → sum_up_to d t m x ≡ sum_from x (up_to t m)
  unfolding sum_up_to
  sum_up_to_lem t lo [] x s = refl
  sum_up_to_lem t lo ((u, w) ∷ m) x s =
      ground (arith, sum_up_to_lem t (suc u) m (d.add x w) s.1, up_to-none t (suc u) m)

  add_weight-Sorted :
      (lo t : ℕ) (dw : D) (m : List (ℕ × D))
      → lo ≤ t
      → Sorted lo m
      → Sorted lo (add_weight d t dw m)
  unfolding add_weight
  add_weight-Sorted lo t dw [] h s = (h, tt)
  add_weight-Sorted lo t dw ((u, w) ∷ m) h s = ground (arith, add_weight-Sorted (suc u) t dw m)

  find_weight-below :
      (t lo : ℕ) (m : List (ℕ × D)) → t < lo → Sorted lo m → find_weight d t m ≡ d.of_nat 0
  unfolding find_weight
  find_weight-below t lo [] h s = refl
  find_weight-below t lo ((u, w) ∷ m) h s = ground (arith, find_weight-below t (suc u) m)

  find_weight-add_weight :
      (t u : ℕ) (dw : D) (lo : ℕ) (m : List (ℕ × D))
      → Sorted lo m
      → find_weight d t (add_weight d u dw m)
        ≡ (if u == t then d.add (find_weight d t m) dw else find_weight d t m)
  unfolding find_weight add_weight
  find_weight-add_weight t u dw lo [] s = ground arith
  find_weight-add_weight t u dw lo ((v, w) ∷ m) s =
      ground (arith, find_weight-add_weight t u dw (suc v) m s.1, find_weight-below t (suc v) m)

  -- What a distribution holds of the samples that it was given.
  pub record Holds (since : List (ℕ × D)) (p : DiscreteDistribution D) : Type 0 where
    pub sorted : Sorted 0 p.weights
    pub counted : p.sample_count ≡ length since % u64_mod
    pub summed : p.weight_sum ≡ sum_from (d.of_nat 0) since
    pub weighed : (t : ℕ) → find_weight d t p.weights ≡ sum_from (d.of_nat 0) (of_value t since)

  sum_from-of_value :
      (since : List (ℕ × D)) (t u : ℕ) (dw : D)
      → (if u == t
          then d.add (sum_from (d.of_nat 0) (of_value t since)) dw
          else sum_from (d.of_nat 0) (of_value t since))
        ≡ sum_from (d.of_nat 0) (of_value t (since ++ ((u, dw) ∷ [])))
  sum_from-of_value since t u dw = elim (Bool-cases (u == t)) [
    | inl e ↦
        rw
          (
            of_value-append t since ((u, dw) ∷ []),
            e,
            sum_from-last (d.of_nat 0) (of_value t since) u dw,
          )
          refl
    | inr e ↦ rw (of_value-append t since ((u, dw) ∷ []), e, append-nil (of_value t since)) refl
  ]

  sample-Holds :
      (since : List (ℕ × D)) (t : ℕ) (dw : D) (p : DiscreteDistribution D)
      → Holds since p
      → Holds (since ++ ((t, dw) ∷ [])) (sample d t dw p)
  unfolding sample
  sample-Holds since t dw p h = record {
    sorted = add_weight-Sorted 0 t dw p.weights (omega arith) h.sorted;
    counted = omega (arith, h.counted, length-append since ((t, dw) ∷ []));
    summed = ap (λ x. d.add x dw) h.summed ∙ sym (sum_from-last (d.of_nat 0) since t dw);
    weighed = λ u.
        find_weight-add_weight u t dw 0 p.weights h.sorted
        ∙ ap (λ x. if t == u then d.add x dw else x) (h.weighed u)
        ∙ sum_from-of_value since u t dw;
  }

  reset-Holds : (p : DiscreteDistribution D) → Holds [] (reset d p)
  unfolding reset new_distribution find_weight
  reset-Holds p = record { sorted = tt; counted = refl; summed = refl; weighed = λ t. refl }

  run-Holds :
      (cs : List (Call D)) (since : List (ℕ × D)) (p : DiscreteDistribution D)
      → Holds since p
      → Holds (samples_of cs since) (run cs p)
  run-Holds [] since p h = h
  run-Holds (sample_call t dw ∷ cs) since p h =
      run-Holds cs (since ++ ((t, dw) ∷ [])) (sample d t dw p) (sample-Holds since t dw p h)
  run-Holds (reset_call ∷ cs) since p h = run-Holds cs [] (reset d p) (reset-Holds p)

  -- After any samples and resets of a new distribution: the weight of each value is the sum, in
  -- their order, of the weights that it was sampled with since the last reset, and 0.0 if there are
  -- none; so is the sum of the weights, and the count wraps. The map holds each value at most once,
  -- in order, and the cumulative probability of a value is the sum of the weights of the values up
  -- to it, in order, by the sum of the weights.
  pub run-represents :
      (cs : List (Call D))
      → let p = run cs (new_distribution d) in
        let since = samples_of cs [] in
        ((t : ℕ) → weight d t p ≡ sum_from (d.of_nat 0) (of_value t since))
        × (p.weight_sum ≡ sum_from (d.of_nat 0) since)
        × (p.sample_count ≡ length since % u64_mod)
        × Sorted 0 p.weights
        × ((t : ℕ)
            → cdf d t p
              ≡ d.div (sum_from (d.of_nat 0) (up_to t p.weights)) (sum_from (d.of_nat 0) since))
  unfolding weight cdf cumulative_weight new_distribution reset
  run-represents cs =
      let p = run cs (new_distribution d) in
      let h = run-Holds cs [] (new_distribution d) (reset-Holds (new_distribution d)) in
      (
        h.weighed,
        h.summed,
        h.counted,
        h.sorted,
        λ t. ap₂ d.div (sum_up_to_lem t 0 p.weights (d.of_nat 0) h.sorted) h.summed,
      )
