-- ===== src/Replayer/Loaded.antt =====
-- Playing the data sources of a replayer to their end.
use werk.Prelude.{
  ℕ, zero, suc, ◌+◌, ◌≤◌, ◌≡◌, refl, sym, ap, ap₂, ◌∙◌, subst, some, List, [], ◌∷◌, ◌++◌, arith,
  if-false, length, All,
}
use mathlib.Core.List.{Perm, perm_middle}
use mathlib.Core.List.Perm
use werk.Prelude.Multimap.{emplace, Ascends, emplace-Ascends}
use werk.Replayer.{
  TimeSeries, Replayer, add_data_source, run_main_action, times_out, execute_from, execute,
}
use werk.Replayer.Forward.{IsAhead, emplace-All}
use werk.Replayer.Events.{
  next_sources-events, add_later-Added, Played, events, Forwards, Fell, next_sources,
}

-- A replayer without a timeout, whose data sources are in order and go forward.
pub record IsLoaded (r : Replayer) : Type 0 where
  pub no_timeout : r.timeout ≡ 0
  pub ahead : IsAhead r.clock r.data_sources
  pub good : All (λ e. Forwards e.1.time e.1.later) r.data_sources
  pub fell : Fell r.clock r.played

pub record Plays (s : TimeSeries) (rest : List (ℕ × TimeSeries)) (r r' : Replayer) : Type 0 where
  pub sources : r'.data_sources ≡ next_sources s s.later rest
  pub played : r'.played ≡ (s.time, some s.name) ∷ r.played
  pub clock : r'.clock ≡ s.time
  pub timeout : r'.timeout ≡ r.timeout

pub execute-Plays :
    (r : Replayer) (k : ℕ) (s : TimeSeries) (rest : List (ℕ × TimeSeries))
    → r.data_sources ≡ (k, s) ∷ rest
    → r.timeout ≡ 0
    → Forwards s.time s.later
    → Plays s rest r (execute r)
unfolding execute execute_from run_main_action add_data_source times_out
execute-Plays r k s rest e timeout h =
    let r1 : Replayer = record r {
      current_data_source = some s.name;
      clock = s.time;
      data_sources = rest;
    } in
    let a = add_later-Added s s.later r1 h in
    subst (Plays s rest r)
      (sym (
        ap (λ m. execute_from m r) e
        ∙ if-false (times_out r.timeout r.clock s.time) _ _
            (ap (λ t. times_out t r.clock s.time) timeout)))
      (record {
        sources = a.sources;
        played = ap₂ (λ x ps. x ∷ ps) (ap₂ (λ c o. (c, o)) a.clock a.current) a.played;
        clock = a.clock;
        timeout = a.timeout;
      })

pub emplace-good :
    (t : ℕ) (s : TimeSeries) (m : List (ℕ × TimeSeries))
    → Forwards s.time s.later
    → All (λ e. Forwards e.1.time e.1.later) m
    → All (λ e. Forwards e.1.time e.1.later) (emplace t s m)
unfolding emplace
emplace-good t s [] h hs = (h, tt)
emplace-good t s ((u, b) ∷ m) h hs = ground (arith, emplace-good t s m h hs.1)

pub next_sources-IsAhead :
    (c : ℕ) (s : TimeSeries) (ts : List ℕ) (rest : List (ℕ × TimeSeries))
    → c ≤ s.time
    → Forwards s.time ts
    → IsAhead c rest
    → IsAhead c (next_sources s ts rest)
next_sources-IsAhead c s [] rest le h a = a
next_sources-IsAhead c s (t ∷ ts) rest le h a =
    let s' : TimeSeries = record s { time = t; later = ts } in
    (emplace-Ascends c t s' rest (omega (arith, h.0)) a.0, emplace-All s' rest a.1)

pub next_sources-good :
    (s : TimeSeries) (ts : List ℕ) (rest : List (ℕ × TimeSeries))
    → Forwards s.time ts
    → All (λ e. Forwards e.1.time e.1.later) rest
    → All (λ e. Forwards e.1.time e.1.later) (next_sources s ts rest)
next_sources-good s [] rest h hs = hs
next_sources-good s (t ∷ ts) rest h hs =
    emplace-good t (record s { time = t; later = ts }) rest h.2 hs

-- How many events are to come.
abbrev pub total : List (ℕ × TimeSeries) → ℕ
total [] = 0
total ((k, s) ∷ m) = suc (length s.later + total m)

pub emplace-total :
    (t : ℕ) (s : TimeSeries) (m : List (ℕ × TimeSeries))
    → total (emplace t s m) ≡ suc (length s.later + total m)
unfolding emplace
emplace-total t s [] = refl
emplace-total t s ((u, b) ∷ m) = ground (arith, emplace-total t s m)

pub next_sources-total :
    (s : TimeSeries) (ts : List ℕ) (rest : List (ℕ × TimeSeries))
    → total (next_sources s ts rest) ≡ length ts + total rest
next_sources-total s [] rest = omega arith
next_sources-total s (t ∷ ts) rest =
    omega (arith, emplace-total t (record s { time = t; later = ts }) rest)

abbrev pub executes : ℕ → Replayer → Replayer
executes zero r = r
executes (suc n) r = executes n (execute r)

pub Fell-weaken : (c d : ℕ) (ps : List Played) → c ≤ d → Fell c ps → Fell d ps
Fell-weaken c d [] h f = tt
Fell-weaken c d ((t, o) ∷ ps) h f = (omega (arith, f.0), f.1)

pub Plays-IsLoaded :
    (r r' : Replayer) (k : ℕ) (s : TimeSeries) (rest : List (ℕ × TimeSeries))
    → r.data_sources ≡ (k, s) ∷ rest
    → IsLoaded r
    → Plays s rest r r'
    → IsLoaded r'
Plays-IsLoaded r r' k s rest e l p =
    let a = subst (IsAhead r.clock) e l.ahead in
    let g = subst (All (λ e'. Forwards e'.1.time e'.1.later)) e l.good in
    let rest_ahead : IsAhead s.time rest = (subst (λ t. Ascends t rest) a.1.0 a.0.1, a.1.1) in
    record {
      no_timeout = p.timeout ∙ l.no_timeout;
      ahead =
          subst (λ c. IsAhead c r'.data_sources) (sym p.clock)
            (subst (IsAhead s.time) (sym p.sources)
              (next_sources-IsAhead s.time s s.later rest (omega arith) g.0 rest_ahead));
      good =
          subst (All (λ e'. Forwards e'.1.time e'.1.later)) (sym p.sources)
            (next_sources-good s s.later rest g.0 g.1);
      fell =
          subst (λ c. Fell c r'.played) (sym p.clock)
            (subst (Fell s.time) (sym p.played) (
              omega arith,
              Fell-weaken r.clock s.time r.played (omega (arith, a.0.0, a.1.0)) l.fell,
            ));
    }

-- What a replay to its end leaves.
pub record Replayed (m : List (ℕ × TimeSeries)) (before : List Played) (r' : Replayer)
    : Type 0 where
  pub sources : r'.data_sources ≡ []
  pub once : Perm r'.played (events m ++ before)
  pub ordered : Fell r'.clock r'.played

pub Plays-Perm :
    (k : ℕ) (s : TimeSeries) (rest : List (ℕ × TimeSeries)) (before : List Played)
    → Perm
        (events (next_sources s s.later rest) ++ ((s.time, some s.name) ∷ before))
        (events ((k, s) ∷ rest) ++ before)
Plays-Perm k s rest before =
    Perm.trans (perm_middle (events (next_sources s s.later rest)) before) (
      Perm.cons (s.time, some s.name)
        (Perm.append_right before (next_sources-events s s.later rest)))

pub executes-Replayed :
    (n : ℕ) (m : List (ℕ × TimeSeries)) (r : Replayer)
    → r.data_sources ≡ m
    → total m ≡ n
    → IsLoaded r
    → Replayed m r.played (executes n r)
executes-Replayed zero [] r e t l = record { sources = e; once = Perm.rfl; ordered = l.fell }
executes-Replayed zero ((k, s) ∷ rest) r e t l = absurd (omega (arith, t))
executes-Replayed (suc n) [] r e t l = absurd (omega (arith, t))
executes-Replayed (suc n) ((k, s) ∷ rest) r e t l =
    let g = subst (All (λ e'. Forwards e'.1.time e'.1.later)) e l.good in
    let p = execute-Plays r k s rest e l.no_timeout g.0 in
    let later =
      executes-Replayed n (next_sources s s.later rest) (execute r) p.sources
        (omega (arith, t, next_sources-total s s.later rest))
        (Plays-IsLoaded r (execute r) k s rest e l p) in
    record {
      sources = later.sources;
      once =
          Perm.trans
            (subst
              (λ b.
                Perm (executes n (execute r)).played (events (next_sources s s.later rest) ++ b))
              p.played later.once)
            (Plays-Perm k s rest r.played);
      ordered = later.ordered;
    }
