-- ===== src/Background/Stop.antt =====
-- How a thread stops.
use werk.Prelude.{
  ℕ, zero, suc, ◌<◌, ◌≡◌, refl, sym, ap, ◌∙◌, subst, false, List, [], ◌∷◌, ◌++◌, length,
}
use werk.Logging.{capacity}
use werk.Logging.Order.{Call, call, message_of, call-message}
use werk.Background.{
  finished, before, BackgroundThread, thread_step, Event, thread, log_call, request_stop, step,
  steps,
}

-- Steps of the thread alone.
abbrev pub alone : ℕ → List Event
alone zero = []
alone (suc n) = thread ∷ alone n

steps-finished : (n : ℕ) (b : BackgroundThread) → b.stage ≡ finished → steps (alone n) b ≡ b
unfolding steps step thread_step
steps-finished zero b e = refl
steps-finished (suc n) b e = ap (λ s. steps (alone n) (thread_step s b)) e ∙ steps-finished n b e

-- A message that is logged after the round's tasks have been executed, with the stop requested
-- behind it, is never written: the thread finishes at once and leaves it in the queue, though it had
-- room, and no later step of the thread changes that.
pub steps-lost :
    (n : ℕ) (c : Call) (b : BackgroundThread)
    → b.stage ≡ before []
    → length b.log.messages < capacity
    → let b' = steps (log_call c ∷ request_stop ∷ alone (suc n)) b in
      (b'.stage ≡ finished)
      × (b'.written ≡ b.written)
      × (b'.log.messages ≡ b.log.messages ++ (message_of b.log.next_send c ∷ []))
unfolding steps step thread_step
steps-lost n c b past room =
    subst Lost (sym lost) (refl, refl, ap (λ l. l.messages) (call-message c b.log room))
  where
    Lost : BackgroundThread → Type 0
    Lost b' =
        (b'.stage ≡ finished)
        × (b'.written ≡ b.written)
        × (b'.log.messages ≡ b.log.messages ++ (message_of b.log.next_send c ∷ []))

    at_end : BackgroundThread
    at_end = record b { stage = finished; running = false; log = call c b.log }

    lost : steps (log_call c ∷ request_stop ∷ alone (suc n)) b ≡ at_end
    lost =
        ap (λ s. steps (alone n) (thread_step s (record b { running = false; log = call c b.log })))
          past
        ∙ steps-finished n at_end refl
