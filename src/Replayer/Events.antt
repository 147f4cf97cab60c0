-- ===== src/Replayer/Events.antt =====
-- The events of data sources, and what an addition and a move leave of them.
use werk.Prelude.{
  ℕ, ◌≤◌, ◌≡◌, refl, sym, ◌∙◌, subst, inl, inr, Option, some, List, [], ◌∷◌, ◌++◌, arith, ltb, ◌==◌,
  if-false, Bool-cases,
}
use mathlib.Core.List.{Perm, perm_append_comm, append_assoc}
use mathlib.Core.List.Perm
use werk.Prelude.Multimap.{emplace}
use werk.Replayer.{TimeSeries, Replayer, add_moved, add_later}

-- An event: its time and its series.
abbrev pub Played : Type 0
Played = ℕ × Option ℕ

abbrev pub events_of : ℕ → List ℕ → List Played
events_of name [] = []
events_of name (t ∷ ts) = (t, some name) ∷ events_of name ts

-- The events that are still to come, of the data sources.
abbrev pub events : List (ℕ × TimeSeries) → List Played
events [] = []
events ((k, s) ∷ m) = events_of s.name (s.time ∷ s.later) ++ events m

-- Times that do not go back, and are not 0, which the replayer takes for the end.
abbrev pub Forwards : ℕ → List ℕ → Type 0
Forwards t [] = Unit
Forwards t (u ∷ us) = (t ≤ u) × (1 ≤ u) × Forwards u us

-- Entries that were played in the order of their times, the last one first.
abbrev pub Fell : ℕ → List Played → Type 0
Fell clock [] = Unit
Fell clock ((t, o) ∷ ps) = (t ≤ clock) × Fell t ps

pub emplace-events :
    (t : ℕ) (s : TimeSeries) (m : List (ℕ × TimeSeries))
    → Perm (events (emplace t s m)) (events_of s.name (s.time ∷ s.later) ++ events m)
unfolding emplace
emplace-events t s [] = Perm.rfl
emplace-events t s ((u, b) ∷ m) = elim (Bool-cases (ltb t u)) [
  | inl e ↦ rw (e, emplace) Perm.rfl
  | inr e ↦
      rw (e, emplace)
        (Perm.trans (Perm.append_left (events_of b.name (b.time ∷ b.later)) (emplace-events t s m))
          (swap_middle (events_of b.name (b.time ∷ b.later)) (events_of s.name (s.time ∷ s.later))
            (events m)))
]
  where
    swap_middle : (xs ys zs : List Played) → Perm (xs ++ (ys ++ zs)) (ys ++ (xs ++ zs))
    swap_middle xs ys zs =
        subst (λ l. Perm l (ys ++ (xs ++ zs))) (append_assoc xs ys zs)
          (subst (Perm ((xs ++ ys) ++ zs)) (append_assoc ys xs zs)
            (Perm.append_right zs (perm_append_comm xs ys)))

-- What an execution leaves of the data sources, the first of which it plays.
abbrev pub next_sources : TimeSeries → List ℕ → List (ℕ × TimeSeries) → List (ℕ × TimeSeries)
next_sources s [] rest = rest
next_sources s (t ∷ ts) rest = emplace t (record s { time = t; later = ts }) rest

pub next_sources-events :
    (s : TimeSeries) (ts : List ℕ) (rest : List (ℕ × TimeSeries))
    → Perm (events (next_sources s ts rest)) (events_of s.name ts ++ events rest)
next_sources-events s [] rest = Perm.rfl
next_sources-events s (t ∷ ts) rest = emplace-events t (record s { time = t; later = ts }) rest

-- What an addition leaves of a replayer, whose log is left open.
pub record Added (m : List (ℕ × TimeSeries)) (r r' : Replayer) : Type 0 where
  pub sources : r'.data_sources ≡ m
  pub played : r'.played ≡ r.played
  pub clock : r'.clock ≡ r.clock
  pub timeout : r'.timeout ≡ r.timeout
  pub current : r'.current_data_source ≡ r.current_data_source

pub add_later-Added :
    (s : TimeSeries) (ts : List ℕ) (r : Replayer)
    → Forwards s.time ts
    → Added (next_sources s ts r.data_sources) r (add_later s ts r)
unfolding add_later add_moved
add_later-Added s [] r h = record {
  sources = refl;
  played = refl;
  clock = refl;
  timeout = refl;
  current = refl;
}
add_later-Added s (t ∷ ts) r h =
    subst (Added (next_sources s (t ∷ ts) r.data_sources) r)
      (sym (
        if-false (t == 0) _ _ (ground (arith, h.1))
        ∙ if-false (ltb t s.time) _ _ (ground (arith, h.0))))
      (record { sources = refl; played = refl; clock = refl; timeout = refl; current = refl })
