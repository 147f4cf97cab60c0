-- ===== src/Statistics/Order/Tests.antt =====
-- Order statistics of a few samples.
use werk.Prelude.{◌-◌, ◌≡◌, List, [], ◌∷◌, true}
use werk.Statistics.Order.{Order, new_order, put}
use werk.Statistics.Order.Lazy.{Call, add, clear, read, calls, calls_lem}

abbrev uses : List Call
uses =
    add 5
    ∷ add 3
    ∷ read (λ n. 0)
    ∷ add 1
    ∷ read (λ n. n - 1)
    ∷ read (λ n. 1)
    ∷ clear
    ∷ read (λ n. 0)
    ∷ []

calls_lem_example : calls uses new_order ≡ 3 ∷ 5 ∷ 3 ∷ 0 ∷ []
unfolding put
calls_lem_example = calls_lem uses

abbrev four : Order
four = record { samples = 7 ∷ 2 ∷ 9 ∷ 4 ∷ []; dirty = true }
