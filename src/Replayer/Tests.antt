-- ===== src/Replayer/Tests.antt =====
-- Two series replayed.
use werk.Prelude.{ℕ, ◌≤◌, ◌≡◌, refl, List, [], ◌∷◌, none, some, true, false, arith}
use mathlib.Core.List.{Perm}
use werk.Replayer.Events.{Fell}
use werk.Replayer.Loaded.{executes}
use werk.Replayer.Complete.{add_all, replay_lem}
use werk.Replayer.Alone.{replay_alone}
use werk.Replayer.Same.{listed, look}
use werk.Prelude.Multimap.{emplace}
use werk.Replayer.{TimeSeries, Replayer, add_data_source, execute, times_out, new_replayer}
use werk.Replayer.Forward.{IsAhead, execute-Forward}

abbrev empty : Replayer
empty = record {
  timeout = 0;
  data_sources = [];
  current_data_source = none;
  clock = 0;
  complete = false;
  log = [];
  played = [];
}

abbrev series : ℕ → List ℕ → TimeSeries
series n times = record { name = n; time = 0; later = times }

abbrev loaded : Replayer
loaded = add_data_source (series 1 (10 ∷ 30 ∷ [])) (add_data_source (series 2 (20 ∷ 30 ∷ [])) empty)

abbrev finished_run : Replayer
finished_run = execute (execute (execute (execute (execute loaded))))

test_replay :
    (finished_run.played ≡ (30, some 2) ∷ (30, some 1) ∷ (20, some 2) ∷ (10, some 1) ∷ [])
    × (finished_run.complete ≡ true)
unfolding execute add_data_source emplace
test_replay = (refl, refl)

abbrev two_ahead : Replayer
two_ahead = record empty {
  timeout = 5;
  clock = 10;
  data_sources =
      (12, record { name = 1; time = 12; later = 40 ∷ [] })
      ∷ (30, record { name = 3; time = 30; later = [] })
      ∷ [];
}

execute-Forward_example :
    IsAhead (execute two_ahead).clock (execute two_ahead).data_sources
    × (10 ≤ (execute two_ahead).clock)
    × (times_out 5 10 (execute two_ahead).clock ≡ false)
execute-Forward_example =
    execute-Forward two_ahead ((omega arith, (omega arith, tt)), (refl, (refl, tt))) (omega arith)

abbrev both : List TimeSeries
both = series 1 (10 ∷ 30 ∷ []) ∷ series 2 (20 ∷ 30 ∷ []) ∷ []

replay_lem_example :
    let r = executes 4 (add_all both (new_replayer 0)) in
    Perm r.played ((10, some 1) ∷ (30, some 1) ∷ (20, some 2) ∷ (30, some 2) ∷ [])
    × Fell r.clock r.played
    × ((execute r).complete ≡ true)
replay_lem_example = replay_lem both (omega arith)

unordered_test :
    replay_alone listed look 3 (series 1 (10 ∷ 30 ∷ 20 ∷ []))
    ≡ some ((10, some 1) ∷ (30, some 1) ∷ [])
unfolding replay_alone
unordered_test = refl
