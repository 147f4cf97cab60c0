-- ===== src/Replayer.antt =====
-- src/Werk/Data/TimeSeriesReplayer.{hpp,cpp}: events of several time series, played by their times.
-- A series is its name, the time it is at, and the times that `moveNext` will move it to.
mod Forward
pub mod Events
mod Loaded
mod Complete
pub mod Alone
mod Same
mod Tests
use werk.Prelude.{
  ℕ, List, [], ◌∷◌, Option, none, some, Bool, true, false, ◌==◌, ltb, ◌&&◌, if◌then◌else◌,
}
use werk.Prelude.Words.{add_u64}
use werk.Prelude.Multimap.{emplace}

pub record TimeSeries : Type 0 where
  pub name : ℕ
  pub time : ℕ
  pub later : List ℕ

-- Entries of the log.
pub data Event : Type 0 where
  finished_source : ℕ → ℕ → Event
  unordered_source : ℕ → ℕ → ℕ → Event
  finished : Event

-- `played` is what the main action saw: the clock, and the series of the event, if it is one.
pub record Replayer : Type 0 where
  pub timeout : ℕ
  pub data_sources : List (ℕ × TimeSeries)
  pub current_data_source : Option ℕ
  pub clock : ℕ
  pub complete : Bool
  pub log : List Event
  pub played : List (ℕ × Option ℕ)

-- At a clock that has not started.
unfoldable pub new_replayer : ℕ → Replayer
new_replayer timeout = record {
  timeout = timeout;
  data_sources = [];
  current_data_source = none;
  clock = 0;
  complete = false;
  log = [];
  played = [];
}

-- `addDataSource` of a series that has moved on.
unfoldable pub add_moved : ℕ → TimeSeries → Replayer → Replayer
add_moved time s r =
    if s.time == 0
    then record r { log = finished_source s.name time ∷ r.log }
    else if ltb s.time time
    then record r { log = unordered_source s.name time s.time ∷ r.log }
    else record r { data_sources = emplace s.time s r.data_sources }

unfoldable pub add_later : TimeSeries → List ℕ → Replayer → Replayer
unfolding add_moved
add_later s [] r = record r { log = finished_source s.name s.time ∷ r.log }
add_later s (t ∷ ts) r = add_moved s.time (record s { time = t; later = ts }) r

-- `addDataSource`
unfoldable pub add_data_source : TimeSeries → Replayer → Replayer
unfolding add_later
add_data_source s r = add_later s s.later r

unfoldable pub run_main_action : Replayer → Replayer
run_main_action r = record r { played = (r.clock, r.current_data_source) ∷ r.played }

unfoldable pub times_out : ℕ → ℕ → ℕ → Bool
times_out timeout last_time time =
    ltb 0 timeout && (ltb 0 last_time && ltb (add_u64 last_time timeout) time)

-- `execute` behind the first of the data sources.
unfoldable pub execute_from : List (ℕ × TimeSeries) → Replayer → Replayer
unfolding add_data_source run_main_action times_out
execute_from [] r = record r { complete = true; log = finished ∷ r.log }
execute_from ((k, s) ∷ sources) r =
    if times_out r.timeout r.clock s.time
    then run_main_action
        (record r { current_data_source = none; clock = add_u64 r.clock r.timeout })
    else run_main_action (
        add_data_source s
          (record r { current_data_source = some s.name; clock = s.time; data_sources = sources }))

unfoldable pub execute : Replayer → Replayer
unfolding execute_from
execute r = execute_from r.data_sources r
