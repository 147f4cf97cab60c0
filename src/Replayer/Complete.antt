-- ===== src/Replayer/Complete.antt =====
-- A whole replay plays every event once, in the order of the times.
use werk.Prelude.{
  ℕ, ◌+◌, ◌≡◌, refl, sym, ap, ◌∙◌, subst, true, List, [], ◌∷◌, ◌++◌, arith, length, All,
}
use mathlib.Core.List.{Perm, perm_append_comm, append_assoc, append-nil}
use mathlib.Core.List.Perm
use werk.Replayer.{TimeSeries, Replayer, add_data_source, execute_from, execute, new_replayer}
use werk.Replayer.Forward.{IsAhead}
use werk.Replayer.Events.{
  Added, next_sources-events, add_later-Added, Played, events_of, events, Forwards, Fell,
  next_sources,
}
use werk.Replayer.Loaded.{
  IsLoaded, next_sources-IsAhead, next_sources-good, next_sources-total, executes-Replayed, total,
  executes,
}

-- Series that are added to a replayer.
abbrev pub add_all : List TimeSeries → Replayer → Replayer
add_all [] r = r
add_all (s ∷ ss) r = add_all ss (add_data_source s r)

-- The events that series will move to.
abbrev pub all_events : List TimeSeries → List Played
all_events [] = []
all_events (s ∷ ss) = events_of s.name s.later ++ all_events ss

abbrev pub event_count : List TimeSeries → ℕ
event_count [] = 0
event_count (s ∷ ss) = length s.later + event_count ss

record Prepared (ss : List TimeSeries) (r r' : Replayer) : Type 0 where
  loaded : IsLoaded r'
  played : r'.played ≡ r.played
  once : Perm (events r'.data_sources) (all_events ss ++ events r.data_sources)
  counted : total r'.data_sources ≡ event_count ss + total r.data_sources

Added-IsLoaded :
    (s : TimeSeries) (r r' : Replayer)
    → r.clock ≡ 0
    → Forwards s.time s.later
    → IsLoaded r
    → Added (next_sources s s.later r.data_sources) r r'
    → IsLoaded r'
Added-IsLoaded s r r' z h l a = record {
  no_timeout = a.timeout ∙ l.no_timeout;
  ahead =
      subst (λ c. IsAhead c r'.data_sources) (sym a.clock)
        (subst (IsAhead r.clock) (sym a.sources)
          (next_sources-IsAhead r.clock s s.later r.data_sources (omega (arith, z)) h l.ahead));
  good =
      subst (All (λ e'. Forwards e'.1.time e'.1.later)) (sym a.sources)
        (next_sources-good s s.later r.data_sources h l.good);
  fell = subst (λ c. Fell c r'.played) (sym a.clock) (subst (Fell r.clock) (sym a.played) l.fell);
}

add_all-Prepared :
    (ss : List TimeSeries) (r : Replayer)
    → r.clock ≡ 0
    → All (λ s. Forwards s.time s.later) ss
    → IsLoaded r
    → Prepared ss r (add_all ss r)
unfolding add_data_source
add_all-Prepared [] r z hs l = record {
  loaded = l;
  played = refl;
  once = Perm.rfl;
  counted = omega arith;
}
add_all-Prepared (s ∷ ss) r z hs l =
    let a = add_later-Added s s.later r hs.0 in
    let p =
      add_all-Prepared ss (add_data_source s r) (a.clock ∙ z) hs.1
        (Added-IsLoaded s r (add_data_source s r) z hs.0 l a) in
    record {
      loaded = p.loaded;
      played = p.played ∙ a.played;
      once = Perm.trans p.once (
          subst
            (λ m. Perm (all_events ss ++ events m) (all_events (s ∷ ss) ++ events r.data_sources))
            (sym a.sources)
            (moved (all_events ss) (events_of s.name s.later) (events r.data_sources)
              (next_sources-events s s.later r.data_sources)));
      counted =
          omega (arith, p.counted, ap total a.sources, next_sources-total s s.later r.data_sources);
    }
  where
    moved :
        {n : List Played} (xs ys zs : List Played)
        → Perm n (ys ++ zs)
        → Perm (xs ++ n) ((ys ++ xs) ++ zs)
    moved xs ys zs h = Perm.trans (Perm.append_left xs h) (
        subst (λ l. Perm l ((ys ++ xs) ++ zs)) (append_assoc xs ys zs)
          (Perm.append_right zs (perm_append_comm xs ys)))

-- Series whose times do not go back and are not 0, added to a new replayer without a timeout, are
-- all played: as many executions as there are events play each event of each series exactly once
-- and nothing else, in the order of the times, and the next execution reports the end.
pub replay_lem :
    (ss : List TimeSeries)
    → All (λ s. Forwards s.time s.later) ss
    → let r = executes (event_count ss) (add_all ss (new_replayer 0)) in
      Perm r.played (all_events ss) × Fell r.clock r.played × ((execute r).complete ≡ true)
unfolding new_replayer execute execute_from
replay_lem ss hs =
    let p =
      add_all-Prepared ss (new_replayer 0) refl hs
        (record { no_timeout = refl; ahead = (tt, tt); good = tt; fell = tt }) in
    let r' =
      executes-Replayed (event_count ss) (add_all ss (new_replayer 0)).data_sources
        (add_all ss (new_replayer 0)) refl (omega (arith, p.counted)) p.loaded in
    (
      Perm.trans r'.once (
          subst (λ b. Perm (events (add_all ss (new_replayer 0)).data_sources ++ b) (all_events ss))
            (sym p.played)
            (subst (λ l. Perm l (all_events ss))
              (sym (append-nil (events (add_all ss (new_replayer 0)).data_sources)))
              (subst (Perm (events (add_all ss (new_replayer 0)).data_sources))
                (append-nil (all_events ss)) p.once))),
      r'.ordered,
      ap (λ m. (execute_from m (executes (event_count ss) (add_all ss (new_replayer 0)))).complete)
          r'.sources,
    )
