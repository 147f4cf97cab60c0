-- ===== src/Context/Replays.antt =====
-- A CSV file, from its bytes on the disk to the events of the replay.
use werk.Prelude.{
  ℕ, ◌≡◌, ap, ◌∙◌, Bool, true, false, Option, some, List, [], ◌∷◌, map, length, All, if-true,
}
use werk.Prelude.Int.{ℤ, pos}
use werk.Prelude.Keys.{Text, Lacks}
use werk.Config.Ini.{lines_of}
use werk.Config.Written.{unlines, lines_of-unlines}
use werk.Csv as Csv
use werk.Pcap.{PcapParser}
use werk.Series.{CsvTimeSeries}
use werk.Series.Written.{Row, written, IsTimed, read_all, event_of, GoForward, read_all-rows}
use werk.Context.Sources.{
  csv_suffix, FileSeries, csv_file, plain, Event, new_csv_parser, new_csv_series, opened_csv,
  open_source, source_added, open_sources, jittered_sources,
}

module _ (ends_with : Text → Text → Bool) (files : Text → Option (List ℕ))
    (new_pcap_parser : PcapParser) (trim : Text → Text) (stoll : Text → Option ℤ) where
  -- The series of a CSV file.
  abbrev series_of : Text → CsvTimeSeries
  series_of text = new_csv_series (record new_csv_parser { lines = some (lines_of text) })

  open_source-csv :
      (path text : Text)
      → ends_with path csv_suffix ≡ true
      → files path ≡ some text
      → open_source ends_with files new_pcap_parser path
        ≡ (some (csv_file (series_of text)), Event.opened path)
  unfolding open_source opened_csv Csv.open_file new_csv_parser
  open_source-csv path text e f =
      if-true (ends_with path csv_suffix) _ _ e
      ∙ ap
          (λ file.
            opened_csv ends_with files new_pcap_parser path (Csv.open_file file new_csv_parser))
          f

  -- A path that ends with .csv, where a file stands whose lines were written from rows, with blank
  -- lines between them and no end of line within one; the text of no row is blank, its plain values
  -- are trimmed, have no comma and do not begin with a quotation mark, its quoted ones have none
  -- within and are left alone by trim with theirs around them; and its first value is a number, and
  -- these, as words, do not go back and are not 0: without jitter, the sources of the replay are
  -- one for this path, and replayed alone, without a timeout, it gives each row as an event, in
  -- order, at the time that is its first value and with its values for the main action, and then
  -- the replay is complete.
  pub jittered_sources-csv :
      (path : Text) (rows : List Row) (n : ℕ)
      → ends_with path csv_suffix ≡ true
      → files path ≡ some (unlines (written rows n))
      → All (Lacks 10) (written rows n)
      → All (IsTimed trim stoll 0) rows
      → GoForward trim stoll (pos 1) (pos 0) 0 rows
      → (s : CsvTimeSeries) × ((jittered_sources ends_with files new_pcap_parser 0 0 (path ∷ [])).0
          ≡ (path, plain (csv_file s)) ∷ [])
        × (read_all trim stoll (length rows) s
            ≡ some (map (event_of trim stoll (pos 1) (pos 0)) rows))
  unfolding jittered_sources open_sources source_added new_csv_series new_csv_parser
  jittered_sources-csv path rows n e f lacks timed forward =
      let s = series_of (unlines (written rows n)) in
      (
        s,
        ap {A = Option FileSeries × Event}
            (λ r. (source_added ends_with files new_pcap_parser false (0, 0) path r ([], [])).0)
            (open_source-csv path (unlines (written rows n)) e f),
        read_all-rows trim stoll rows n s (ap some (lines_of-unlines (written rows n) lacks)) timed
            forward,
      )
