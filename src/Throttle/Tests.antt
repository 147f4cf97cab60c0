-- ===== src/Throttle/Tests.antt =====
-- The unit test of src/WerkTest/Utility/Throttle.cpp, and the theorems at a throttle of it.
use werk.SlidingWindow.Slots.{next_slot}
use werk.Prelude.{ℕ, ◌≡◌, refl, List, [], ◌∷◌, Bool, true, false, arith}
use werk.Throttle.Refinement.{IsValid, entries, request_refines}
use werk.Throttle.Rate.{IsSpaced, granted-init-IsSpaced}
use werk.Throttle.{Throttle, init, force_slide_one, slide, sample, try_use_slot, request, granted}

abbrev unused : List ℕ
unused = 0 ∷ 0 ∷ 0 ∷ 0 ∷ []

abbrev full : Throttle
full = record { duration = 1000; front = 0; count = 4; indexes = 100 ∷ 300 ∷ 500 ∷ 700 ∷ [] }

test_throttle :
    (try_use_slot 4 900 full ≡ (false, full)) × ((slide 4 1501 (sample 4 900 full)).count ≡ 2)
unfolding try_use_slot slide sample force_slide_one
test_throttle = (refl, refl)

granted_times :
    granted 2 (100 ∷ 300 ∷ 500 ∷ 1101 ∷ 1102 ∷ 1400 ∷ []) [] (init 2 1000 (0 ∷ 0 ∷ []))
    ≡ 1400 ∷ 1101 ∷ 300 ∷ 100 ∷ []
unfolding granted request try_use_slot slide sample force_slide_one init
granted_times = refl

request_refines_example :
    let (use_it, t) = request 4 1150 full in
    IsValid 4 t
    × ◌≡◌ {A = Bool × List ℕ} (use_it, entries 4 t) (true, 300 ∷ 500 ∷ 700 ∷ 1150 ∷ [])
    × (t.duration ≡ 1000)
unfolding next_slot
request_refines_example = request_refines 4 1150 full (ground arith)

granted-init-IsSpaced_example :
    IsSpaced 2 1000 (granted 2 (100 ∷ 300 ∷ 500 ∷ 1101 ∷ []) [] (init 2 1000 (0 ∷ 0 ∷ [])))
granted-init-IsSpaced_example =
    granted-init-IsSpaced 2 1000 (0 ∷ 0 ∷ []) (100 ∷ 300 ∷ 500 ∷ 1101 ∷ []) (omega arith) refl
      (omega arith)
