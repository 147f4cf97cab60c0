-- ===== src/Replayer/Alone.antt =====
-- src/Werk/Data/TimeSeriesReplayer.cpp with one series of any class, on a clock that has no timeout.
-- What the main action sees of the series is a parameter.
use werk.Prelude.{
  ℕ, zero, suc, ◌≤◌, ◌≡◌, ap, ◌∙◌, Bool, true, false, not, ◌&&◌, Option, none, some, List, [], ◌∷◌,
  arith, ltb, ◌==◌,
}
use werk.Series.{Series}

module _ {S X : Type 0} (series : Series S) (look : S → X) where
  -- Whether a series that has moved on is inserted again.
  unfoldable pub inserted : ℕ → Bool × S → Bool × S
  inserted time (success, s) =
      (success && (not (series.time s == 0) && not (ltb (series.time s) time)), s)

  unfoldable pub moved_source : ℕ → Option (Bool × S) → Option (Bool × S)
  unfolding inserted
  moved_source time none = none
  moved_source time (some r) = some (inserted time r)

  -- `addDataSource`; `none` if the move throws.
  unfoldable pub add_source : S → Option (Bool × S)
  unfolding moved_source
  add_source s = moved_source (series.time s) (series.move_next s)

  abbrev pub prepend : ℕ × X → Option (List (ℕ × X)) → Option (List (ℕ × X))
  prepend e none = none
  prepend e (some es) = some (e ∷ es)

  -- An `execute` at a time: the main action looks at the series behind its move.
  abbrev pub execute_at :
      ℕ → Option (Bool × S) → (S → Option (List (ℕ × X))) → Option (List (ℕ × X))
  execute_at time none rest = none
  execute_at time (some (false, s)) rest = some ((time, look s) ∷ [])
  execute_at time (some (true, s)) rest = prepend (time, look s) (rest s)

  -- `execute` until the replay is complete, with fuel; `none` if a move throws or the fuel runs out.
  unfoldable pub execute_all : ℕ → S → Option (List (ℕ × X))
  unfolding add_source
  execute_all zero s = none
  execute_all (suc n) s = let rest = execute_all n in execute_at (series.time s) (add_source s) rest

  abbrev pub from_first : Option (Bool × S) → (S → Option (List (ℕ × X))) → Option (List (ℕ × X))
  from_first none rest = none
  from_first (some (false, s)) rest = some []
  from_first (some (true, s)) rest = rest s

  -- A replay of a series that is added to a new replayer: its events, each with what the main action
  -- sees.
  unfoldable pub replay_alone : ℕ → S → Option (List (ℕ × X))
  unfolding execute_all add_source
  replay_alone n s = from_first (add_source s) (execute_all n)

  pub add_source-kept :
      (s s' : S)
      → series.move_next s ≡ some (true, s')
      → series.time s ≤ series.time s'
      → 1 ≤ series.time s'
      → add_source s ≡ some (true, s')
  unfolding add_source moved_source inserted
  add_source-kept s s' moves le pos =
      ap (moved_source (series.time s)) moves ∙ ap (λ b. some (b, s')) (ground arith)

  pub add_source-ends :
      (s s' : S) → series.move_next s ≡ some (false, s') → add_source s ≡ some (false, s')
  unfolding add_source moved_source inserted
  add_source-ends s s' moves = ap (moved_source (series.time s)) moves
