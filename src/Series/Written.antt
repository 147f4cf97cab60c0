-- ===== src/Series/Written.antt =====
-- A CSV series over a file of written rows, as a replay reads it.
use werk.Prelude.{
  ℕ, suc, ◌<◌, ◌≡◌, refl, sym, ap, ap₂, ◌∙◌, subst, true, false, not, Option, some, List, [], ◌∷◌,
  ◌++◌, map, arith, leb, if-true, if-false, length, get_or, All,
}
use werk.Prelude.Int.{ℤ}
use werk.Prelude.Keys.{Text}
use werk.Csv.{values, move_next}
use werk.Csv.Rows.{Cell, row_text, blank, contents, IsRow, move_next-row, move_next-end}
use werk.Series.{CsvTimeSeries, csv_series, scaled, at_value, csv_moved, csv_move_next, row_values}
use werk.Replayer.Events.{Forwards}
use werk.Replayer.Alone.{
  replay_alone, execute_all, execute_at, from_first, prepend, add_source-kept, add_source-ends,
}

-- The blank lines before a row, its cells, and the number in its column of times.
pub record Row : Type 0 where
  pub blanks : ℕ
  pub first : Cell
  pub others : List Cell
  pub value : ℤ

abbrev pub row_contents : Row → List Text
row_contents r = contents (r.first ∷ r.others)

-- Rows as they stand in a file, with blank lines at its end.
abbrev pub written : List Row → ℕ → List Text
written [] n = blank n
written (r ∷ rs) n = blank r.blanks ++ (row_text r.first r.others ∷ written rs n)

leb-false : (a b : ℕ) → b < a → leb a b ≡ false
leb-false a b h = ground arith

module _ (trim : Text → Text) (stoll : Text → Option ℤ) where
  pub record IsTimed (column : ℕ) (r : Row) : Type 0 where
    pub not_blank : ¬ (row_text r.first r.others ≡ [])
    pub is_row : IsRow trim (r.first ∷ r.others)
    pub has_column : column < length (row_contents r)
    pub value_read : stoll (get_or (row_contents r) column []) ≡ some r.value

  -- A replay of the series alone, where the main action asks for the values.
  abbrev pub read_all : ℕ → CsvTimeSeries → Option (List (ℕ × List Text))
  read_all = replay_alone (csv_series trim stoll) row_values

  record Moved (s : CsvTimeSeries) (r : Row) (rest : List Text) (s' : CsvTimeSeries) : Type 0 where
    time : s'.time ≡ scaled r.value s.scale s.offset
    now : values s'.parser ≡ row_contents r
    before : row_values s' ≡ values s.parser
    lines : s'.parser.lines ≡ some rest
    column : s'.time_column ≡ s.time_column
    scale : s'.scale ≡ s.scale
    offset : s'.offset ≡ s.offset

  csv_move_next-row :
      (s : CsvTimeSeries) (r : Row) (rest : List Text)
      → s.parser.lines ≡ some (blank r.blanks ++ (row_text r.first r.others ∷ rest))
      → IsTimed s.time_column r
      → (s' : CsvTimeSeries) × (csv_move_next trim stoll s ≡ some (true, s')) × Moved s r rest s'
  unfolding csv_move_next csv_moved at_value
  csv_move_next-row s r rest lines h =
      let (success, p) = move_next trim false s.parser in
      let (succeeds, now, before, headers, left) =
        move_next-row trim r.blanks r.first r.others rest s.parser lines h.not_blank h.is_row in
      let s' : CsvTimeSeries = record s { parser = p; time = scaled r.value s.scale s.offset } in
      (
        s',
        if-false (not success) _ _ (ap not succeeds)
            ∙ if-false (leb (length (values p)) s.time_column) _ _ (
                ap (λ vs. leb (length vs) s.time_column) now
                ∙ leb-false (length (row_contents r)) s.time_column h.has_column)
            ∙ ap (λ o. at_value o (record s { parser = p; time = 0 }))
                (ap (λ vs. stoll (get_or vs s.time_column [])) now ∙ h.value_read),
        record {
          time = refl;
          now = now;
          before = before;
          lines = left;
          column = refl;
          scale = refl;
          offset = refl;
        },
      )

  csv_move_next-end :
      (s : CsvTimeSeries) (n : ℕ)
      → s.parser.lines ≡ some (blank n)
      → (s' : CsvTimeSeries) × (csv_move_next trim stoll s ≡ some (false, s'))
        × (row_values s' ≡ values s.parser)
  unfolding csv_move_next csv_moved
  csv_move_next-end s n lines =
      let (success, p) = move_next trim false s.parser in
      let (fails, now, before, headers) = move_next-end trim n s.parser lines in
      (record s { parser = p; time = 0 }, if-true (not success) _ _ (ap not fails), before)

  -- An event of each row.
  abbrev pub event_of : ℤ → ℤ → Row → ℕ × List Text
  event_of scale offset r = (scaled r.value scale offset, row_contents r)

  -- A series that has moved to a row.
  record IsAt (column : ℕ) (scale offset : ℤ) (r : Row) (rs : List Row) (n : ℕ) (s : CsvTimeSeries)
      : Type 0 where
    time : s.time ≡ scaled r.value scale offset
    now : values s.parser ≡ row_contents r
    lines : s.parser.lines ≡ some (written rs n)
    column_kept : s.time_column ≡ column
    scale_kept : s.scale ≡ scale
    offset_kept : s.offset ≡ offset

  Moved-IsAt :
      (column : ℕ) (scale offset : ℤ) (r : Row) (rs : List Row) (n : ℕ) (s s' : CsvTimeSeries)
      → s.time_column ≡ column
      → s.scale ≡ scale
      → s.offset ≡ offset
      → Moved s r (written rs n) s'
      → IsAt column scale offset r rs n s'
  Moved-IsAt column scale offset r rs n s s' c k o m = record {
    time = m.time ∙ ap₂ (λ x y. scaled r.value x y) k o;
    now = m.now;
    lines = m.lines;
    column_kept = m.column ∙ c;
    scale_kept = m.scale ∙ k;
    offset_kept = m.offset ∙ o;
  }

  -- The times of rows go forward from a time, and are not 0.
  abbrev pub GoForward : ℤ → ℤ → ℕ → List Row → Type 0
  GoForward scale offset t rows = Forwards t (map (λ r. scaled r.value scale offset) rows)

  execute_all-written :
      (column : ℕ) (scale offset : ℤ) (r : Row) (rs : List Row) (n : ℕ) (s : CsvTimeSeries)
      → All (IsTimed column) rs
      → GoForward scale offset s.time rs
      → IsAt column scale offset r rs n s
      → execute_all (csv_series trim stoll) row_values (suc (length rs)) s
        ≡ some (map (event_of scale offset) (r ∷ rs))
  unfolding execute_all
  execute_all-written column scale offset r [] n s hs f a =
      let (s', ends, before) = csv_move_next-end s n a.lines in
      ap
        (λ m.
          execute_at (csv_series trim stoll) row_values s.time m
            (execute_all (csv_series trim stoll) row_values 0))
        (add_source-ends (csv_series trim stoll) row_values s s' ends)
      ∙ ap₂ (λ t vs. some ((t, vs) ∷ [])) a.time (before ∙ a.now)
  execute_all-written column scale offset r (q ∷ rs) n s hs f a =
      let (s', moves, m) =
        csv_move_next-row s q (written rs n) a.lines
          (subst (λ c. IsTimed c q) (sym a.column_kept) hs.0) in
      let at =
        Moved-IsAt column scale offset q rs n s s' a.column_kept a.scale_kept a.offset_kept m in
      ap
        (λ x.
          execute_at (csv_series trim stoll) row_values s.time x
            (execute_all (csv_series trim stoll) row_values (suc (length rs))))
        (add_source-kept (csv_series trim stoll) row_values s s' moves (omega (arith, at.time, f.0))
          (omega (arith, at.time, f.1)))
      ∙ ap (prepend (csv_series trim stoll) row_values (s.time, row_values s')) (
          execute_all-written column scale offset q rs n s' hs.1
            (subst (λ t. GoForward scale offset t rs) (sym at.time) f.2) at)
      ∙ ap₂ (λ t vs. some ((t, vs) ∷ map (event_of scale offset) (q ∷ rs))) a.time
          (m.before ∙ a.now)

  -- Replayed alone, without a timeout, a series over a CSV file that was written from rows, with
  -- blank lines between them, where the text of no row is blank, its plain values are trimmed, have
  -- no comma and do not begin with a quotation mark, its quoted ones have none within and are left
  -- alone by trim with theirs around them, the value in the column of times is a number, and the
  -- times that these are scaled to do not go back and are not 0: each row is an event, in order, at
  -- its time; the values that the series has for the main action are those of the row; and behind
  -- the last row the replay is complete.
  pub read_all-rows :
      (rows : List Row) (n : ℕ) (s : CsvTimeSeries)
      → s.parser.lines ≡ some (written rows n)
      → All (IsTimed s.time_column) rows
      → GoForward s.scale s.offset s.time rows
      → read_all (length rows) s ≡ some (map (event_of s.scale s.offset) rows)
  unfolding replay_alone
  read_all-rows [] n s lines hs f =
      let (s', ends, before) = csv_move_next-end s n lines in
      ap
        (λ m.
          from_first (csv_series trim stoll) row_values m
            (execute_all (csv_series trim stoll) row_values 0))
        (add_source-ends (csv_series trim stoll) row_values s s' ends)
  read_all-rows (r ∷ rs) n s lines hs f =
      let (s', moves, m) = csv_move_next-row s r (written rs n) lines hs.0 in
      let at = Moved-IsAt s.time_column s.scale s.offset r rs n s s' refl refl refl m in
      ap
        (λ x.
          from_first (csv_series trim stoll) row_values x
            (execute_all (csv_series trim stoll) row_values (suc (length rs))))
        (add_source-kept (csv_series trim stoll) row_values s s' moves (omega (arith, at.time, f.0))
          (omega (arith, at.time, f.1)))
      ∙ execute_all-written s.time_column s.scale s.offset r rs n s' hs.1
          (subst (λ t. GoForward s.scale s.offset t rs) (sym at.time) f.2) at
