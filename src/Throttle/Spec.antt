-- ===== src/Throttle/Spec.antt =====
-- What a throttle promises: a queue of at most `size` uses, oldest first.
use werk.Prelude.{ℕ, List, [], ◌∷◌, ◌++◌, Bool, true, false, ltb, leb, if◌then◌else◌, length}
use werk.Prelude.Words.{sub_u64}

abbrev pub drop_while : (ℕ → Bool) → List ℕ → List ℕ
drop_while p [] = []
drop_while p (x ∷ xs) = if p x then drop_while p xs else x ∷ xs

abbrev pub tail : List ℕ → List ℕ
tail [] = []
tail (x ∷ xs) = xs

abbrev pub stale : ℕ → ℕ → ℕ → Bool
stale duration now i = ltb duration (sub_u64 now i)

abbrev pub try_use_slot : ℕ → ℕ → List ℕ → Bool × List ℕ
try_use_slot size now q = if leb size (length q) then (false, q) else (true, q ++ (now ∷ []))

abbrev pub request : ℕ → ℕ → ℕ → List ℕ → Bool × List ℕ
request size duration now q = try_use_slot size now (drop_while (stale duration now) q)
