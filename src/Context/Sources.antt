-- ===== src/Context/Sources.antt =====
-- The sources of historical data that `run` of Context sets up for a replay.
use werk.Prelude.{ℕ, Bool, true, false, Option, none, some, List, [], ◌∷◌, ltb, if◌then◌else◌}
use werk.Prelude.Int.{pos}
use werk.Prelude.Keys.{Text}
use werk.Config.{Config}
use werk.Config.Getters.{Conversions, get_strings, get_time_amount}
use werk.Csv.{CsvParser}
use werk.Csv as Csv
use werk.Pcap.{PcapParser}
use werk.Pcap as Pcap
use werk.Series.{CsvTimeSeries, JitterTimeSeries, new_jitter}
use werk.Context.{jitter_min_key, jitter_max_key, data_sources_key}
use werk.Context.Loop.{◌>>=◌}

abbrev pub csv_suffix : Text
csv_suffix = b'.' ∷ b'c' ∷ b's' ∷ b'v' ∷ []

abbrev pub pcap_suffix : Text
pcap_suffix = b'.' ∷ b'p' ∷ b'c' ∷ b'a' ∷ b'p' ∷ []

pub data FileSeries : Type 0 where
  csv_file : CsvTimeSeries → FileSeries
  pcap_file : PcapParser → FileSeries

-- What `addDataSource` is given: a series of a file, or that with jitter. The path is the name.
pub data TimeSeries : Type 0 where
  plain : FileSeries → TimeSeries
  jittered : JitterTimeSeries FileSeries → TimeSeries

-- Entries of the log.
pub data Event : Type 0 where
  swapping : Event
  opened failed_to_open unknown_type : Text → Event

unfoldable pub new_csv_parser : CsvParser
new_csv_parser = record {
  lines = none;
  line = [];
  headers = [];
  values0 = [];
  values1 = [];
  values_n = 0;
}

-- The column of times, the scale and the offset are those by default.
unfoldable pub new_csv_series : CsvParser → CsvTimeSeries
new_csv_series p = record { parser = p; time_column = 0; scale = pos 1; offset = pos 0; time = 0 }

-- The range of the jitter, and whether it is used; the ends are swapped if they are in the wrong
-- order.
unfoldable pub jitter_range : ℕ → ℕ → ℕ × ℕ
jitter_range lo hi = if ltb hi lo then (hi, lo) else (lo, hi)

-- `files` is what stands at a path; `ends_with` is boost's; a new `PcapParser` has arrays that are
-- not initialised.
module _ (ends_with : Text → Text → Bool) (files : Text → Option (List ℕ))
    (new_pcap_parser : PcapParser) where
  unfoldable pub opened_csv : Text → Bool × CsvParser → Option FileSeries × Event
  unfolding new_csv_series
  opened_csv path (true, p) = (some (csv_file (new_csv_series p)), opened path)
  opened_csv path (false, p) = (none, failed_to_open path)

  unfoldable pub opened_pcap : Text → Bool × PcapParser → Option FileSeries × Event
  opened_pcap path (true, p) = (some (pcap_file p), opened path)
  opened_pcap path (false, p) = (none, failed_to_open path)

  -- The series of a path, and the entry of the log for it.
  unfoldable pub open_source : Text → Option FileSeries × Event
  unfolding opened_csv opened_pcap new_csv_parser Csv.open_file Pcap.open_file
  open_source path =
      if ends_with path csv_suffix
      then opened_csv path (Csv.open_file (files path) new_csv_parser)
      else if ends_with path pcap_suffix
      then opened_pcap path (Pcap.open_file (files path) new_pcap_parser)
      else (none, unknown_type path)

  unfoldable pub add_jitter : Bool → ℕ × ℕ → FileSeries → TimeSeries
  unfolding new_jitter
  add_jitter true (lo, hi) s = jittered (new_jitter s lo hi)
  add_jitter false range s = plain s

  unfoldable pub source_added :
      Bool
      → ℕ × ℕ
      → Text
      → Option FileSeries × Event
      → List (Text × TimeSeries) × List Event
      → List (Text × TimeSeries) × List Event
  unfolding add_jitter
  source_added use_jitter range path (none, e) (sources, log) = (sources, e ∷ log)
  source_added use_jitter range path (some s, e) (sources, log) =
      ((path, add_jitter use_jitter range s) ∷ sources, e ∷ log)

  -- The loop over the paths: the series that are added to the replayer, and the log, both in order.
  unfoldable pub open_sources : Bool → ℕ × ℕ → List Text → List (Text × TimeSeries) × List Event
  unfolding open_source source_added
  open_sources use_jitter range [] = ([], [])
  open_sources use_jitter range (path ∷ paths) =
      source_added use_jitter range path (open_source path) (open_sources use_jitter range paths)

  -- The sources for the numbers of the configuration.
  unfoldable pub jittered_sources : ℕ → ℕ → List Text → List (Text × TimeSeries) × List Event
  unfolding jitter_range open_sources
  jittered_sources lo hi paths =
      let range = jitter_range lo hi in
      let (sources, log) = open_sources (ltb 0 range.1) range paths in
      (sources, if ltb hi lo then swapping ∷ log else log)

  -- `none` is a number of the configuration that is not read, which throws.
  unfoldable pub set_up_sources :
      {Double : Type 0}
      → Conversions Double
      → Config
      → Option ((List (Text × TimeSeries) × List Event) × Config)
  unfolding jittered_sources get_time_amount get_strings
  set_up_sources lib c = do
    lo ← get_time_amount lib jitter_min_key 0 none c
    hi ← get_time_amount lib jitter_max_key 0 none lo.1
    let (value, paths, c') = get_strings lib data_sources_key [] none (b',' ∷ []) none hi.1
    some (jittered_sources lo.0 hi.0 paths, c')
