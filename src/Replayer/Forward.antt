-- ===== src/Replayer/Forward.antt =====
-- The replay only goes forward.
use werk.Prelude.{
  ℕ, ◌+◌, ◌≤◌, ◌<◌, ◌≡◌, refl, ◌∙◌, ap, sym, subst, List, [], ◌∷◌, some, true, false, inl, inr,
  if-true, if-false, Bool-cases, arith, All,
}
use werk.Prelude.Words.{add_u64, u64_mod}
use werk.Prelude.Multimap.{emplace, Ascends, emplace-Ascends}
use werk.Replayer.{
  TimeSeries, Replayer, add_moved, add_later, add_data_source, run_main_action, times_out,
  execute_from, execute,
}

-- The clock is behind the data sources, which stand in order, each under its time.
abbrev pub IsAhead : ℕ → List (ℕ × TimeSeries) → Type 0
IsAhead clock m = Ascends clock m × All (λ e. e.0 ≡ e.1.time) m

pub emplace-All :
    (s : TimeSeries) (m : List (ℕ × TimeSeries))
    → All (λ e. e.0 ≡ e.1.time) m
    → All (λ e. e.0 ≡ e.1.time) (emplace s.time s m)
unfolding emplace
emplace-All s [] h = (refl, tt)
emplace-All s ((u, b) ∷ m) h = ground (arith, emplace-All s m h.1)

add_later-IsAhead :
    (s : TimeSeries) (ts : List ℕ) (r : Replayer)
    → s.time ≡ r.clock
    → IsAhead r.clock r.data_sources
    → IsAhead (add_later s ts r).clock (add_later s ts r).data_sources
      × ((add_later s ts r).clock ≡ r.clock)
unfolding add_later add_moved
add_later-IsAhead s [] r e h = (h, refl)
add_later-IsAhead s (t ∷ ts) r e h = ground (
  arith,
  emplace-Ascends r.clock t (record s { time = t; later = ts }) r.data_sources,
  emplace-All (record s { time = t; later = ts }) r.data_sources h.1,
)

-- What one execution keeps: the clock does not go back, nor further than the timeout.
pub record Forward (r r' : Replayer) : Type 0 where
  pub ahead : IsAhead r'.clock r'.data_sources
  pub forward : r.clock ≤ r'.clock
  pub within : times_out r.timeout r.clock r'.clock ≡ false

times_out-same :
    (timeout clock : ℕ) → clock + timeout < u64_mod → times_out timeout clock clock ≡ false
unfolding times_out
times_out-same timeout clock h = ground arith

times_out-moved :
    (timeout clock : ℕ)
    → clock + timeout < u64_mod
    → times_out timeout clock (add_u64 clock timeout) ≡ false
unfolding times_out
times_out-moved timeout clock h = ground arith

times_out-less :
    (timeout clock time : ℕ)
    → clock + timeout < u64_mod
    → times_out timeout clock time ≡ true
    → clock + timeout < time
unfolding times_out
times_out-less timeout clock time h e = ground arith

execute_from-Forward :
    (m : List (ℕ × TimeSeries)) (r : Replayer)
    → r.data_sources ≡ m
    → IsAhead r.clock m
    → r.clock + r.timeout < u64_mod
    → Forward r (execute_from m r)
unfolding execute_from run_main_action add_data_source
execute_from-Forward [] r e h bound = record {
  ahead = subst (IsAhead r.clock) (sym e) h;
  forward = omega arith;
  within = times_out-same r.timeout r.clock bound;
}
execute_from-Forward ((k, s) ∷ sources) r e h bound =
    elim (Bool-cases (times_out r.timeout r.clock s.time)) [
      | inl t ↦
          let less = times_out-less r.timeout r.clock s.time bound t in
          subst (Forward r) (sym (if-true _ _ _ t)) (record {
            ahead =
                subst (IsAhead (add_u64 r.clock r.timeout)) (sym e)
                  ((omega (arith, h.1.0), h.0.1), h.1);
            forward = omega arith;
            within = times_out-moved r.timeout r.clock bound;
          })
      | inr t ↦
          let added =
            add_later-IsAhead s s.later
              (record r {
                current_data_source = some s.name;
                clock = s.time;
                data_sources = sources;
              })
              refl (subst (λ u. Ascends u sources) h.1.0 h.0.1, h.1.1) in
          subst (Forward r) (sym (if-false _ _ _ t)) (record {
            ahead = added.0;
            forward = omega (arith, h.0.0, h.1.0, added.1);
            within = ap (times_out r.timeout r.clock) added.1 ∙ t;
          })
    ]

-- With the data sources ahead of the clock, in order and each under its time, and a clock to which
-- the timeout can be added in a word: an execution keeps them so; the clock does not go back, nor
-- more than the timeout ahead, where there is one and the clock has started.
pub execute-Forward :
    (r : Replayer)
    → IsAhead r.clock r.data_sources
    → r.clock + r.timeout < u64_mod
    → IsAhead (execute r).clock (execute r).data_sources
      × (r.clock ≤ (execute r).clock)
      × (times_out r.timeout r.clock (execute r).clock ≡ false)
unfolding execute
execute-Forward r h bound =
    let f = execute_from-Forward r.data_sources r refl h bound in (f.ahead, f.forward, f.within)
