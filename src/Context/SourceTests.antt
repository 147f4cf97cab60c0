-- ===== src/Context/SourceTests.antt =====
-- The sources of a replay at a few paths.
use werk.Prelude.{
  ℕ, ◌≡◌, refl, Bool, false, ◌||◌, Option, none, some, List, [], ◌∷◌, ◌==◌, if◌then◌else◌, All,
  arith, ◌-◌,
}
use werk.Prelude.Keys.{Text, text_beq}
use werk.Prelude.Int.{ℤ, pos}
use werk.Config.Written.{unlines}
use werk.Csv.Rows.{plain, quoted}
use werk.Series.{CsvTimeSeries}
use werk.Series.Written.{Row, IsTimed, written, read_all}
use werk.Context.Replays.{jittered_sources-csv}
use werk.Pcap.{PcapParser}
use werk.Context.Sources.{
  csv_suffix, pcap_suffix, csv_file, TimeSeries, opened, failed_to_open, unknown_type, swapping,
  jittered_sources, jitter_range, open_sources, open_source, source_added, opened_csv, opened_pcap,
}
use werk.Context.Opened.{names, IsJittered, jittered_sources_lem}

abbrev ends_with : Text → Text → Bool
ends_with [] suffix = text_beq [] suffix
ends_with (c ∷ cs) suffix = text_beq (c ∷ cs) suffix || ends_with cs suffix

abbrev csv_path : Text
csv_path = b'a' ∷ csv_suffix

abbrev missing_path : Text
missing_path = b'b' ∷ csv_suffix

-- A capture file without its whole header.
abbrev short_path : Text
short_path = b'a' ∷ pcap_suffix

abbrev files : Text → Option (List ℕ)
files [] = none
files (c ∷ cs) = if c == b'a' then some (b'5' ∷ 10 ∷ []) else none

abbrev new_pcap_parser : PcapParser
new_pcap_parser = record {
  file = none;
  file_header = [];
  is_nanosecond = false;
  record_header = [];
  time = 0;
  buffer = [];
}

abbrev paths : List Text
paths = missing_path ∷ csv_path ∷ short_path ∷ (b'x' ∷ []) ∷ []

jittered_sources_lem_example :
    let sources = (jittered_sources ends_with files new_pcap_parser 9 4 paths).0 in
    (names ends_with files new_pcap_parser sources ≡ csv_path ∷ [])
    × All (λ x. IsJittered 9 4 x.1) sources
jittered_sources_lem_example = jittered_sources_lem ends_with files new_pcap_parser 9 4 paths refl

sources_log :
    (jittered_sources ends_with files new_pcap_parser 9 4 paths).1
    ≡ swapping
      ∷ failed_to_open missing_path
      ∷ opened csv_path
      ∷ failed_to_open short_path
      ∷ unknown_type (b'x' ∷ [])
      ∷ []
unfolding jittered_sources jitter_range open_sources open_source source_added opened_csv opened_pcap
sources_log = refl

-- `5,a`, and behind two blank lines `7,"b,c"`.
abbrev rows : List Row
rows =
    record { blanks = 0; first = plain (b'5' ∷ []); others = plain (b'a' ∷ []) ∷ []; value = pos 5 }
    ∷ record {
      blanks = 2;
      first = plain (b'7' ∷ []);
      others = quoted (b'b' ∷ b',' ∷ b'c' ∷ []) ∷ [];
      value = pos 7;
    }
    ∷ []

abbrev trim : Text → Text
trim s = s

abbrev stoll : Text → Option ℤ
stoll [] = none
stoll (c ∷ cs) = some (pos (c - b'0'))

rows-IsTimed : All (IsTimed trim stoll 0) rows
rows-IsTimed = (
  record {
    not_blank = λ e. cc;
    is_row = ((refl, (refl, tt), refl), ((refl, (refl, tt), refl), tt));
    has_column = omega arith;
    value_read = refl;
  },
  (
    record {
      not_blank = λ e. cc;
      is_row = ((refl, (refl, tt), refl), (((refl, (refl, (refl, tt))), refl), tt));
      has_column = omega arith;
      value_read = refl;
    },
    tt,
  ),
)

-- The file of the rows at one path.
abbrev row_files : Text → Option (List ℕ)
row_files path = if text_beq path csv_path then some (unlines (written rows 1)) else none

jittered_sources-csv_example :
    (s : CsvTimeSeries) × ((jittered_sources ends_with row_files new_pcap_parser 0 0
        (csv_path ∷ [])).0
      ≡ (csv_path, TimeSeries.plain (csv_file s)) ∷ [])
    × (read_all trim stoll 2 s
        ≡ some (
            (5, (b'5' ∷ []) ∷ (b'a' ∷ []) ∷ [])
            ∷ (7, (b'7' ∷ []) ∷ (b'b' ∷ b',' ∷ b'c' ∷ []) ∷ [])
            ∷ []))
jittered_sources-csv_example =
    jittered_sources-csv ends_with row_files new_pcap_parser trim stoll csv_path rows 1 refl refl
      (
        (refl, (refl, (refl, tt))),
        (tt, (tt, ((refl, (refl, (refl, (refl, (refl, (refl, (refl, tt))))))), (tt, tt)))),
      )
      rows-IsTimed (omega arith)
