-- ===== src/Background/Tests.antt =====
-- A background thread with two tasks.
use werk.Prelude.{◌≡◌, refl, inl, true, List, [], ◌∷◌, arith}
use werk.Commands.{LogLevel}
use werk.Logging.Order.{Call, raw, message_of}
use werk.Background.{
  write_log, act, BackgroundTask, asleep, finished, before, BackgroundThread, Event, thread,
  log_call, request_stop, steps,
}
use werk.Background.Flush.{IsWritten, steps-written}
use werk.Background.Stop.{alone, steps-lost}

abbrev hello : Call
hello = raw 100 LogLevel.info (b'h' ∷ [])

abbrev tasks : List BackgroundTask
tasks = record { work = write_log; active = true } ∷ record { work = act 7; active = true } ∷ []

abbrev idle : BackgroundThread
idle = record {
  tasks = tasks;
  stage = asleep;
  running = true;
  log = record { next_send = 6; next_receive = 5; messages = message_of 5 hello ∷ [] };
  written = [];
  ran = [];
}

abbrev stopping : List Event
stopping = thread ∷ request_stop ∷ alone 4

steps-written_example : IsWritten (message_of 5 hello ∷ []) 5 [] (steps stopping idle).written
unfolding steps
steps-written_example = steps-written stopping idle (inl tt) refl

abbrev past : BackgroundThread
past = record idle { stage = before [] }

steps-lost_example :
    let b' = steps (log_call hello ∷ request_stop ∷ alone 3) past in
    (b'.stage ≡ finished)
    × (b'.written ≡ [])
    × (b'.log.messages ≡ message_of 5 hello ∷ message_of 6 hello ∷ [])
steps-lost_example = steps-lost 2 hello past refl (omega arith)
