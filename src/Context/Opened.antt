-- ===== src/Context/Opened.antt =====
-- Which sources a replay has.
use werk.Prelude.{
  ℕ, ◌≤◌, ◌<◌, ◌≡◌, refl, sym, ap, ap₂, ◌∙◌, subst, inl, inr, Bool, true, false, Option, none, some,
  List, [], ◌∷◌, arith, ltb, leb, if◌then◌else◌, if-true, if-false, Bool-cases, length, All, min,
  max,
}
use werk.Prelude.Keys.{Text}
use werk.Csv as Csv
use werk.Pcap.Stream.{read, File}
use werk.Pcap.{PcapParser}
use werk.Pcap as Pcap
use werk.Series.{new_jitter}
use werk.Context.Sources.{
  csv_suffix, pcap_suffix, FileSeries, TimeSeries, plain, jittered, Event, new_csv_parser,
  jitter_range, opened_csv, opened_pcap, open_source, add_jitter, source_added, open_sources,
  jittered_sources,
}

abbrev pub exists_at : Option (List ℕ) → Bool
exists_at none = false
exists_at (some bytes) = true

-- A capture file has a header of 24 bytes.
abbrev pub has_header : Option (List ℕ) → Bool
has_header none = false
has_header (some bytes) = leb 24 (length bytes)

abbrev pub opens_as : Option FileSeries × Event → Bool
opens_as (none, e) = false
opens_as (some s, e) = true

-- The jitter of a source for the two numbers of the configuration.
abbrev pub IsJittered : ℕ → ℕ → TimeSeries → Type 0
IsJittered lo hi (plain s) = (lo ≡ 0) × (hi ≡ 0)
IsJittered lo hi (jittered j) =
    (j.min ≡ min lo hi) × (j.max ≡ max lo hi) × (j.min ≤ j.max) × (0 < j.max)

module _ (ends_with : Text → Text → Bool) (files : Text → Option (List ℕ))
    (new_pcap_parser : PcapParser) where
  -- A path for which there is a source.
  abbrev pub opens : Text → Bool
  opens path =
      if ends_with path csv_suffix
      then exists_at (files path)
      else if ends_with path pcap_suffix
      then has_header (files path)
      else false

  abbrev pub opened_paths : List Text → List Text
  opened_paths [] = []
  opened_paths (path ∷ paths) = if opens path then path ∷ opened_paths paths else opened_paths paths

  abbrev pub names : List (Text × TimeSeries) → List Text
  names [] = []
  names ((path, s) ∷ sources) = path ∷ names sources

  csv_opens :
      (path : Text) (file : Option (List ℕ))
      → opens_as
          (opened_csv ends_with files new_pcap_parser path (Csv.open_file file new_csv_parser))
        ≡ exists_at file
  unfolding opened_csv Csv.open_file new_csv_parser
  csv_opens path none = refl
  csv_opens path (some bytes) = refl

  opened_pcap-opens :
      (path : Text) (r : Bool × PcapParser)
      → opens_as (opened_pcap ends_with files new_pcap_parser path r) ≡ r.0
  unfolding opened_pcap
  opened_pcap-opens path (true, p) = refl
  opened_pcap-opens path (false, p) = refl

  open_bytes-header :
      (bytes : List ℕ) (p : PcapParser) → (Pcap.open_bytes bytes p).0 ≡ leb 24 (length bytes)
  unfolding Pcap.open_bytes read
  open_bytes-header bytes p = elim (Bool-cases (leb 24 (length bytes))) [
    | inl e ↦ ap {A = List ℕ × File} (λ r. r.1.good) (if-true (leb 24 (length bytes)) _ _ e) ∙ sym e
    | inr e ↦
        ap {A = List ℕ × File} (λ r. r.1.good) (if-false (leb 24 (length bytes)) _ _ e) ∙ sym e
  ]

  open_file-header :
      (file : Option (List ℕ))
      → new_pcap_parser.file ≡ none
      → (Pcap.open_file file new_pcap_parser).0 ≡ has_header file
  unfolding Pcap.open_file Pcap.open_from
  open_file-header none closed = ap (λ f. (Pcap.open_from f none new_pcap_parser).0) closed
  open_file-header (some bytes) closed =
      ap (λ f. (Pcap.open_from f (some bytes) new_pcap_parser).0) closed
      ∙ open_bytes-header bytes new_pcap_parser

  open_source-opens :
      (path : Text)
      → new_pcap_parser.file ≡ none
      → opens_as (open_source ends_with files new_pcap_parser path) ≡ opens path
  unfolding open_source
  open_source-opens path closed = elim (Bool-cases (ends_with path csv_suffix)) [
    | inl e ↦
        ap opens_as (if-true (ends_with path csv_suffix) _ _ e)
        ∙ csv_opens path (files path)
        ∙ sym (if-true (ends_with path csv_suffix) _ _ e)
    | inr e ↦
        ap opens_as (if-false (ends_with path csv_suffix) _ _ e)
        ∙ elim (Bool-cases (ends_with path pcap_suffix)) [
          | inl p ↦
              ap opens_as (if-true (ends_with path pcap_suffix) _ _ p)
              ∙ opened_pcap-opens path (Pcap.open_file (files path) new_pcap_parser)
              ∙ open_file-header (files path) closed
              ∙ sym (if-true (ends_with path pcap_suffix) _ _ p)
          | inr p ↦
              ap opens_as (if-false (ends_with path pcap_suffix) _ _ p)
              ∙ sym (if-false (ends_with path pcap_suffix) _ _ p)
        ]
        ∙ sym (if-false (ends_with path csv_suffix) _ _ e)
  ]

  source_added-names :
      (use_jitter : Bool) (range : ℕ × ℕ) (path : Text) (r : Option FileSeries × Event)
      (rest : List (Text × TimeSeries) × List Event)
      → names (source_added ends_with files new_pcap_parser use_jitter range path r rest).0
        ≡ (if opens_as r then path ∷ names rest.0 else names rest.0)
  unfolding source_added
  source_added-names use_jitter range path (none, e) (sources, log) = refl
  source_added-names use_jitter range path (some s, e) (sources, log) = refl

  open_sources-names :
      (use_jitter : Bool) (range : ℕ × ℕ) (paths : List Text)
      → new_pcap_parser.file ≡ none
      → names (open_sources ends_with files new_pcap_parser use_jitter range paths).0
        ≡ opened_paths paths
  unfolding open_sources
  open_sources-names use_jitter range [] closed = refl
  open_sources-names use_jitter range (path ∷ paths) closed =
      source_added-names use_jitter range path (open_source ends_with files new_pcap_parser path)
        (open_sources ends_with files new_pcap_parser use_jitter range paths)
      ∙ ap₂ (λ b ns. if b then path ∷ ns else ns) (open_source-opens path closed)
          (open_sources-names use_jitter range paths closed)

  add_jitter-IsJittered :
      (lo hi : ℕ) (b : Bool) (s : FileSeries)
      → ltb 0 (max lo hi) ≡ b
      → IsJittered lo hi (add_jitter ends_with files new_pcap_parser b (min lo hi, max lo hi) s)
  unfolding add_jitter new_jitter
  add_jitter-IsJittered lo hi true s h = (refl, refl, omega arith, ground arith)
  add_jitter-IsJittered lo hi false s h = (ground arith, ground arith)

  abbrev AllJittered : ℕ → ℕ → List (Text × TimeSeries) → Type 0
  AllJittered lo hi = All (λ x. IsJittered lo hi x.1)

  source_added-AllJittered :
      (lo hi : ℕ) (path : Text) (r : Option FileSeries × Event)
      (rest : List (Text × TimeSeries) × List Event)
      → AllJittered lo hi rest.0
      → AllJittered lo hi
          (source_added ends_with files new_pcap_parser
            (ltb 0 (max lo hi))
            (min lo hi, max lo hi)
            path
            r
            rest).0
  unfolding source_added
  source_added-AllJittered lo hi path (none, e) (sources, log) h = h
  source_added-AllJittered lo hi path (some s, e) (sources, log) h =
      (add_jitter-IsJittered lo hi (ltb 0 (max lo hi)) s refl, h)

  open_sources-AllJittered :
      (lo hi : ℕ) (paths : List Text)
      → AllJittered lo hi
          (open_sources ends_with files new_pcap_parser
            (ltb 0 (max lo hi))
            (min lo hi, max lo hi)
            paths).0
  unfolding open_sources
  open_sources-AllJittered lo hi [] = tt
  open_sources-AllJittered lo hi (path ∷ paths) =
      source_added-AllJittered lo hi path (open_source ends_with files new_pcap_parser path)
        (open_sources ends_with files new_pcap_parser (ltb 0 (max lo hi)) (min lo hi, max lo hi)
          paths)
        (open_sources-AllJittered lo hi paths)

  jitter_range-ordered : (lo hi : ℕ) → jitter_range lo hi ≡ (min lo hi, max lo hi)
  unfolding jitter_range
  jitter_range-ordered lo hi = elim (Bool-cases (ltb hi lo)) [
    | inl e ↦
        if-true (ltb hi lo) (hi, lo) (lo, hi) e ∙ ap₂ (λ a b. (a, b)) (ground arith) (ground arith)
    | inr e ↦
        if-false (ltb hi lo) (hi, lo) (lo, hi) e ∙ ap₂ (λ a b. (a, b)) (ground arith) (ground arith)
  ]

  -- Whatever the paths and the two numbers for the jitter: the series that are added are those of
  -- the paths, in order, that end with .csv and have a file, or end with .pcap and have one with a
  -- header; without jitter if both numbers are 0, and else each with jitter between the smaller and
  -- the larger number, whichever was which, so that the range for the random numbers is in order.
  pub jittered_sources_lem :
      (lo hi : ℕ) (paths : List Text)
      → new_pcap_parser.file ≡ none
      → let sources = (jittered_sources ends_with files new_pcap_parser lo hi paths).0 in
        (names sources ≡ opened_paths paths) × All (λ x. IsJittered lo hi x.1) sources
  unfolding jittered_sources
  jittered_sources_lem lo hi paths closed =
      subst
        (λ range.
          (names (open_sources ends_with files new_pcap_parser (ltb 0 range.1) range paths).0
            ≡ opened_paths paths)
          × All (λ x. IsJittered lo hi x.1)
              (open_sources ends_with files new_pcap_parser (ltb 0 range.1) range paths).0)
        (sym (jitter_range-ordered lo hi))
        (
          open_sources-names (ltb 0 (max lo hi)) (min lo hi, max lo hi) paths closed,
          open_sources-AllJittered lo hi paths,
        )
