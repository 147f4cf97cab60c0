-- ===== src/Replayer/Same.antt =====
-- The replayer with one series, and a replay of that series alone.
use werk.Prelude.{ℕ, ◌≡◌, Bool, true, false, Option, some, List, [], ◌∷◌, length}
use werk.Series.{Series}
use werk.Replayer.{TimeSeries, Event, Replayer, new_replayer, add_data_source, run_main_action}
use werk.Replayer.Events.{Played}
use werk.Replayer.Loaded.{executes}
use werk.Replayer.Alone.{execute_all, replay_alone}

-- A series of the replayer as one of any class.
abbrev listed_move_next : TimeSeries → List ℕ → Option (Bool × TimeSeries)
listed_move_next s [] = some (false, s)
listed_move_next s (t ∷ ts) = some (true, record s { time = t; later = ts })

abbrev pub listed : Series TimeSeries
listed = record { time = λ s. s.time; move_next = λ s. listed_move_next s s.later }

-- What the main action sees is which series it is.
abbrev pub look : TimeSeries → Option ℕ
look s = some s.name

-- Events in order, behind others of which the last one is the first.
abbrev pub last_first : List Played → List Played → List Played
last_first [] before = before
last_first (e ∷ es) before = last_first es (e ∷ before)

-- A replayer without a timeout that has one series.
abbrev with_one : TimeSeries → Replayer → Replayer
with_one s r = record r { timeout = 0; data_sources = (s.time, s) ∷ [] }

-- What `executes` and `execute_all` give alike.
Same : ℕ → TimeSeries → Replayer → Type 0
Same n s r =
    (es : List Played) × (execute_all listed look n s ≡ some es)
    × ((executes n (with_one s r)).played ≡ last_first es r.played)

-- The replayer with a series whose event is played, and which is then dropped.
abbrev dropped : ℕ → TimeSeries → Event → Replayer → Replayer
dropped time s event r = run_main_action (record r {
  timeout = 0;
  data_sources = [];
  current_data_source = look s;
  clock = time;
  log = event ∷ r.log;
})

abbrev next : TimeSeries → ℕ → List ℕ → TimeSeries
next s t ts = record s { time = t; later = ts }

executed : TimeSeries → Replayer → Replayer
executed s r = record r {
  timeout = 0;
  data_sources = [];
  current_data_source = look s;
  clock = s.time;
}

-- The two replays of a series.
Replayed : TimeSeries → Type 0
Replayed s =
    (es : List Played) × (replay_alone listed look (length s.later) s ≡ some es)
    × ((executes (length s.later) (add_data_source s (new_replayer 0))).played ≡ last_first es [])
