-- ===== src/Series.antt =====
-- src/Werk/Data/Csv/CsvTimeSeries.hpp and JitterTimeSeries.hpp: the series that a replay gets out of
-- files.
pub mod Jittered
pub mod Written
mod Tests
use werk.Prelude.{
  ℕ, zero, suc, ◌+◌, ◌-◌, ◌*◌, ◌/◌, ◌%◌, ◌^◌, ◌≤◌, ◌<◌, ◌≡◌, ◌≢◌, refl, sym, ap, ap₂, ◌∙◌, subst,
  ◌⊎◌, inl, inr, Bool, true, false, not, ◌&&◌, ◌||◌, Option, none, some, List, [], ◌∷◌, ◌++◌, map,
  arith, ltb, leb, ◌==◌, ==_iff, if◌then◌else◌, if-true, if-false, Bool-cases, Option-cases, length,
  get_elem?, get_or, set, take, drop, All, All-append, length-append, length-set, max,
}
use werk.Prelude.Int.{ℤ, to_u64}
use werk.Prelude.Words.{add_u64, u64_mod}
use werk.Prelude.Keys.{Text}
use werk.Csv.{CsvParser, values, last_values, move_next}

-- The class `TimeSeries`. `none` is a move that throws.
pub record Series (S : Type 0) : Type 0 where
  pub time : S → ℕ
  pub move_next : S → Option (Bool × S)

pub record CsvTimeSeries : Type 0 where
  pub parser : CsvParser
  pub time_column : ℕ
  pub scale : ℤ
  pub offset : ℤ
  pub time : ℕ

-- `stoll(value) * scale + offset` as a uint64_t. The source computes it in int64_t; that does not
-- overflow, or is undefined.
abbrev pub scaled : ℤ → ℤ → ℤ → ℕ
scaled value scale offset = (to_u64 value * to_u64 scale + to_u64 offset) % u64_mod

unfoldable pub at_value : Option ℤ → CsvTimeSeries → Option (Bool × CsvTimeSeries)
at_value none s = none
at_value (some v) s = some (true, record s { time = scaled v s.scale s.offset })

-- `std::stoll` is a parameter.
module _ (trim : Text → Text) (stoll : Text → Option ℤ) where
  unfoldable pub csv_moved : Bool × CsvParser → CsvTimeSeries → Option (Bool × CsvTimeSeries)
  unfolding at_value values
  csv_moved (success, p) s =
      let s' = record s { parser = p; time = 0 } in
      let next = at_value (stoll (get_or (values p) s.time_column [])) s' in
      if not success
      then some (false, s')
      else if leb (length (values p)) s.time_column
      then some (false, s')
      else next

  unfoldable pub csv_move_next : CsvTimeSeries → Option (Bool × CsvTimeSeries)
  unfolding csv_moved move_next
  csv_move_next s = csv_moved (move_next trim false s.parser) s

  abbrev pub csv_series : Series CsvTimeSeries
  csv_series = record { time = λ s. s.time; move_next = csv_move_next }

-- `CsvTimeSeries::values`
abbrev pub row_values : CsvTimeSeries → List Text
row_values s = last_values s.parser

-- `drawn` counts what the series has taken from the random numbers.
pub record JitterTimeSeries (S : Type 0) : Type 0 where
  pub underlying : S
  pub min : ℕ
  pub max : ℕ
  pub time : ℕ
  pub drawn : ℕ

unfoldable pub new_jitter : {S : Type 0} → S → ℕ → ℕ → JitterTimeSeries S
new_jitter s lo hi = record { underlying = s; min = lo; max = hi; time = 0; drawn = 0 }

-- `Random::getUint64` gives a number in a range, at each time that it is called.
module _ {S : Type 0} (series : Series S) (get_uint64 : ℕ → ℕ → ℕ → ℕ) where
  unfoldable pub jitter_moved :
      Option (Bool × S) → JitterTimeSeries S → Option (Bool × JitterTimeSeries S)
  jitter_moved none j = none
  jitter_moved (some (false, s)) j = some (false, record j { underlying = s })
  jitter_moved (some (true, s)) j =
      let jitter = get_uint64 j.drawn j.min j.max in
      some (
        true,
        record j {
          underlying = s;
          time = max j.time (add_u64 (series.time s) jitter);
          drawn = j.drawn + 1;
        },
      )

  unfoldable pub jitter_move_next : JitterTimeSeries S → Option (Bool × JitterTimeSeries S)
  unfolding jitter_moved
  jitter_move_next j = jitter_moved (series.move_next j.underlying) j

  abbrev pub jitter_series : Series (JitterTimeSeries S)
  jitter_series = record { time = λ j. j.time; move_next = jitter_move_next }
