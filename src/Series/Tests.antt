-- ===== src/Series/Tests.antt =====
-- Jitter on times that go back.
use werk.Prelude.{
  ℕ, ◌%◌, ◌≡◌, refl, Bool, true, false, Option, some, List, [], ◌∷◌, arith, ◌==◌, if◌then◌else◌,
}
use werk.Series.{Series, new_jitter, jitter_series, jitter_move_next}
use werk.Series.Jittered.{times_of, Jitters, new_jitter-Jitters, times_from}

-- A series of times in a list.
abbrev move_next : ℕ × List ℕ → Option (Bool × (ℕ × List ℕ))
move_next (t, []) = some (false, (t, []))
move_next (t, u ∷ us) = some (true, (u, us))

abbrev listed : Series (ℕ × List ℕ)
listed = record { time = λ s. s.0; move_next = move_next }

-- The numbers 3 and 6 in turn.
abbrev get_uint64 : ℕ → ℕ → ℕ → ℕ
get_uint64 k lo hi = if k % 2 == 0 then lo else hi

-- 10, 4 and 20 become 13, 13 and 23.
new_jitter-Jitters_example :
    (js : List ℕ) × (times_of
        (jitter_series listed get_uint64)
        4
        (new_jitter (0, 10 ∷ 4 ∷ 20 ∷ []) 3 6)
      ≡ some js)
    × Jitters 3 6 0 (10 ∷ 4 ∷ 20 ∷ []) js
unfolding times_of times_from
new_jitter-Jitters_example =
    new_jitter-Jitters listed get_uint64 4 (0, 10 ∷ 4 ∷ 20 ∷ []) 3 6 (10 ∷ 4 ∷ 20 ∷ [])
      (λ k. ground arith) (omega arith, (omega arith, (omega arith, tt))) refl

jittered_test :
    times_of (jitter_series listed get_uint64) 4 (new_jitter (0, 10 ∷ 4 ∷ 20 ∷ []) 3 6)
    ≡ some (13 ∷ 13 ∷ 23 ∷ [])
unfolding times_of times_from new_jitter jitter_move_next
jittered_test = refl
