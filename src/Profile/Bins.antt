-- ===== src/Profile/Bins.antt =====
-- What a bin of intervals gives to the statistics.
use werk.Prelude.{
  ℕ, suc, ◌-◌, ◌≡◌, refl, ◌∙◌, ap, sym, subst, List, [], ◌∷◌, ◌++◌, true, false, leb, ◌==◌,
  length-append, arith, if-true, if-false,
}
use werk.Prelude.Int.{ℤ, to_u64}
use werk.Prelude.Words.{add_u64}
use werk.Statistics.{Doubles, sample}
use werk.Statistics.Order as Order
use werk.Statistics.Order.Lazy.{IsKept, read_sorted, read_at-IsRead}
use werk.Profile.{Profile, sample_bin, stop_sample, sample_fractiles, stop, delta_of}

-- Samples that are in order behind the next read.
record Reads (xs : List ℕ) (o : Order.Order) : Type 0 where
  kept : IsKept o
  same : Order.sort o.samples ≡ xs

reads :
    (index : ℕ → ℕ) (xs : List ℕ) (o : Order.Order)
    → Reads xs o
    → ((Order.read_at index o).0 ≡ read_sorted index xs) × Reads xs (Order.read_at index o).1
reads index xs o r =
    let h = read_at-IsRead index o r.kept in
    (h.0 ∙ ap (read_sorted index) r.same, record { kept = h.1; same = h.2 ∙ r.same })

module _ {D : Type 0} (d : Doubles D) (scaled : ℕ → ℕ → ℕ) where
  -- What the statistics of a profile become by a bin, which is emptied.
  pub record Sampled (xs : List ℕ) (p p' : Profile D) : Type 0 where
    pub min : p'.min_statistics ≡ sample d (read_sorted (λ n. 0) xs) p.min_statistics
    pub f25 : p'.f25_statistics ≡ sample d (read_sorted (scaled 25) xs) p.f25_statistics
    pub f50 : p'.f50_statistics ≡ sample d (read_sorted (scaled 50) xs) p.f50_statistics
    pub f75 : p'.f75_statistics ≡ sample d (read_sorted (scaled 75) xs) p.f75_statistics
    pub f90 : p'.f90_statistics ≡ sample d (read_sorted (scaled 90) xs) p.f90_statistics
    pub f95 : p'.f95_statistics ≡ sample d (read_sorted (scaled 95) xs) p.f95_statistics
    pub f99 : p'.f99_statistics ≡ sample d (read_sorted (scaled 99) xs) p.f99_statistics
    pub max : p'.max_statistics ≡ sample d (read_sorted (λ n. n - 1) xs) p.max_statistics
    pub emptied : Order.count p'.order_statistics ≡ 0
    pub warmup : p'.warmup_statistics ≡ p.warmup_statistics
    pub stopped : p'.start_time ≡ p.start_time
    pub counted : p'.count ≡ p.count

  sample_bin-Sampled :
      (p : Profile D)
      → IsKept p.order_statistics
      → Sampled (Order.sort p.order_statistics.samples) p (sample_bin d scaled p)
  unfolding sample_bin Order.min Order.fractile Order.max Order.reset
  sample_bin-Sampled p h =
      let xs = Order.sort p.order_statistics.samples in
      let (e0, r0) = reads (λ n. 0) xs p.order_statistics (record { kept = h; same = refl }) in
      let (e25, r25) = reads (scaled 25) xs _ r0 in
      let (e50, r50) = reads (scaled 50) xs _ r25 in
      let (e75, r75) = reads (scaled 75) xs _ r50 in
      let (e90, r90) = reads (scaled 90) xs _ r75 in
      let (e95, r95) = reads (scaled 95) xs _ r90 in
      let (e99, r99) = reads (scaled 99) xs _ r95 in
      let (e100, r100) = reads (λ n. n - 1) xs _ r99 in
      record {
        min = ap (λ v. sample d v p.min_statistics) e0;
        f25 = ap (λ v. sample d v p.f25_statistics) e25;
        f50 = ap (λ v. sample d v p.f50_statistics) e50;
        f75 = ap (λ v. sample d v p.f75_statistics) e75;
        f90 = ap (λ v. sample d v p.f90_statistics) e90;
        f95 = ap (λ v. sample d v p.f95_statistics) e95;
        f99 = ap (λ v. sample d v p.f99_statistics) e99;
        max = ap (λ v. sample d v p.max_statistics) e100;
        emptied = refl;
        warmup = refl;
        stopped = refl;
        counted = refl;
      }

  -- A profile whose interval has been put in the bin.
  abbrev pub put_in_bin : ℤ → Profile D → Profile D
  put_in_bin delta p = record p {
    last_delta = delta;
    count = add_u64 p.count 1;
    order_statistics = Order.sample (to_u64 delta) p.order_statistics;
    start_time = 0;
  }

  count-sample : (t : ℕ) (o : Order.Order) → (Order.count (Order.sample t o) == 0) ≡ false
  unfolding Order.sample
  count-sample t o = ground (arith, length-append o.samples (t ∷ []))

  length-sample :
      (t : ℕ) (p : Profile D)
      → Order.count (Order.sample t p.order_statistics) ≡ suc (Order.count p.order_statistics)
  unfolding Order.sample
  length-sample t p = omega (arith, length-append p.order_statistics.samples (t ∷ []))

  stop-full :
      (time : ℕ) (p : Profile D)
      → (p.start_time == 0) ≡ false
      → leb (add_u64 p.count 1) p.warmup_size ≡ false
      → leb p.sample_size (suc (Order.count p.order_statistics)) ≡ true
      → stop d scaled time p ≡ (
        delta_of time p.start_time,
        sample_bin d scaled (put_in_bin (delta_of time p.start_time) p),
      )
  unfolding stop stop_sample sample_fractiles Order.sample
  stop-full time p started warm full =
      let delta = delta_of time p.start_time in
      if-false (p.start_time == 0) _ _ started
      ∙ ap (λ p'. (delta, p'))
          (if-false (leb (add_u64 p.count 1) p.warmup_size) _ _ warm
            ∙ if-true _ _ _ (ap (leb p.sample_size) (length-sample (to_u64 delta) p) ∙ full)
            ∙ if-false _ _ _ (count-sample (to_u64 delta) p.order_statistics))

  -- An interval that is over the warmup and fills the bin is returned, and stops the profile; each
  -- statistic is given the bin's order statistic, the interval included, and the bin is emptied.
  pub stop-Sampled :
      (time : ℕ) (p : Profile D)
      → IsKept p.order_statistics
      → (p.start_time == 0) ≡ false
      → leb (add_u64 p.count 1) p.warmup_size ≡ false
      → leb p.sample_size (suc (Order.count p.order_statistics)) ≡ true
      → let delta = delta_of time p.start_time in
        ((stop d scaled time p).0 ≡ delta)
        × Sampled
            (Order.sort (p.order_statistics.samples ++ (to_u64 delta ∷ [])))
            (put_in_bin delta p)
            (stop d scaled time p).1
  unfolding Order.sample
  stop-Sampled time p kept started warm full =
      let delta = delta_of time p.start_time in
      let e = stop-full time p started warm full in
      (
        ap (λ r. r.0) e,
        subst
            (λ r.
              Sampled (Order.sort (p.order_statistics.samples ++ (to_u64 delta ∷ [])))
                (put_in_bin delta p) r.1)
            (sym e) (sample_bin-Sampled (put_in_bin delta p) tt),
      )
