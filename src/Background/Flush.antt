-- ===== src/Background/Flush.antt =====
-- What is in the log's queue before the thread passes its writer is written before it finishes.
use werk.Prelude.{
  ℕ, ◌≡◌, refl, sym, ap, ap₂, ◌∙◌, subst, ◌⊎◌, inl, inr, Bool, true, false, List, [], ◌∷◌, ◌++◌,
  arith, ltb, if-true, if-false, Bool-cases, length,
}
use mathlib.Core.List.{append-nil, append_assoc}
use werk.Prelude.Words.{add_u64}
use werk.Logging.{AsyncLog, LogMessage, Written, execute, push, log, log_raw, drain}
use werk.Logging.Order.{Call, call, formatted, raw}
use werk.Background.{
  Work, write_log, act, BackgroundTask, Stage, round, asleep, finished, before, BackgroundThread,
  do_work, execute_task, thread_step, Event, thread, log_call, request_stop, step, steps,
}

-- An active task that writes the log.
abbrev pub Writes : Bool → Work → Type 0
Writes true write_log = Unit
Writes true (act n) = ⊥
Writes false work = ⊥

abbrev pub HasWriter : List BackgroundTask → Type 0
HasWriter [] = ⊥
HasWriter (k ∷ ks) = Writes k.active k.work ⊎ HasWriter ks

-- The writer is still to come.
abbrev pub IsAhead : Stage → List BackgroundTask → Type 0
IsAhead round tasks = HasWriter tasks
IsAhead asleep tasks = HasWriter tasks
IsAhead (before ks) tasks = HasWriter ks
IsAhead finished tasks = ⊥

drain-append :
    (ms new : List LogMessage) (r : ℕ)
    → (drain (ms ++ new) r).0 ≡ (drain ms r).0 ++ (drain new (drain ms r).1).0
unfolding drain
drain-append [] new r = refl
drain-append (m ∷ ms) new r = ground (arith, drain-append ms new (add_u64 m.sequence_number 1))

-- A log after calls: what was queued, and behind it what is new.
abbrev Grown : List LogMessage → ℕ → AsyncLog → Type 0
Grown ms r l = (new : List LogMessage) × (l.messages ≡ ms ++ new) × (l.next_receive ≡ r)

push-Grown : (m : LogMessage) (l : AsyncLog) → Grown l.messages l.next_receive (push m l)
unfolding push
push-Grown m l = elim (Bool-cases (ltb (length l.messages) 4096)) [
  | inl e ↦ subst (Grown l.messages l.next_receive) (sym (if-true _ _ _ e)) (m ∷ [], refl, refl)
  | inr e ↦
      subst (Grown l.messages l.next_receive) (sym (if-false _ _ _ e))
        ([], sym (append-nil l.messages), refl)
]

call-Grown :
    (c : Call) (ms : List LogMessage) (r : ℕ) (l : AsyncLog) → Grown ms r l → Grown ms r (call c l)
unfolding log log_raw
call-Grown c ms r l (new, e, n) = more (added c)
  where
    added : (c : Call) → Grown l.messages l.next_receive (call c l)
    added (formatted time level text) =
        push-Grown _ (record l { next_send = add_u64 l.next_send 1 })
    added (raw time level text) = push-Grown _ (record l { next_send = add_u64 l.next_send 1 })

    more : Grown l.messages l.next_receive (call c l) → Grown ms r (call c l)
    more (new', e', n') =
        (new ++ new', e' ∙ ap (λ q. q ++ new') e ∙ append_assoc ms new new', n' ∙ n)

-- The queue of a state, and what has been written there, seen from a later state: either the writer
-- is still to come, or the queue has been written behind what had been.
module _ (ms : List LogMessage) (r : ℕ) (w : List Written) where
  abbrev pub IsWritten : List Written → Type 0
  IsWritten w' = (more : List Written) × (w' ≡ (w ++ (drain ms r).0) ++ more)

  abbrev Owed : Stage → BackgroundThread → Type 0
  Owed s b = (IsAhead s b.tasks × Grown ms r b.log × (b.written ≡ w)) ⊎ IsWritten b.written

  written-more : (w' ws : List Written) → IsWritten w' → IsWritten (w' ++ ws)
  written-more w' ws (more, e) =
      (more ++ ws, ap (λ q. q ++ ws) e ∙ append_assoc (w ++ (drain ms r).0) more ws)

  write-IsWritten :
      (b : BackgroundThread)
      → Grown ms r b.log
      → b.written ≡ w
      → IsWritten (do_work true write_log b).written
  unfolding do_work execute
  write-IsWritten b (new, e, n) same = (
    (drain new (drain ms r).1).0,
    ap₂ (λ q k. b.written ++ (drain q k).0) e n
        ∙ ap (λ q. q ++ (drain (ms ++ new) r).0) same
        ∙ ap (λ q. w ++ q) (drain-append ms new r)
        ∙ sym (append_assoc w (drain ms r).0 (drain new (drain ms r).1).0),
  )

  do_work-Owed :
      (a : Bool) (k : Work) (ks : List BackgroundTask) (b : BackgroundThread)
      → ((Writes a k ⊎ HasWriter ks) × Grown ms r b.log × (b.written ≡ w)) ⊎ IsWritten b.written
      → Owed (before ks) (do_work a k b)
  unfolding do_work
  do_work-Owed false k ks b (inl (inl h, grown, same)) = absurd h
  do_work-Owed false k ks b (inl (inr h, grown, same)) = inl (h, grown, same)
  do_work-Owed false k ks b (inr done) = inr done
  do_work-Owed true write_log ks b (inl (h, grown, same)) = inr (write-IsWritten b grown same)
  do_work-Owed true write_log ks b (inr done) = inr (written-more b.written (execute b.log).0 done)
  do_work-Owed true (act n) ks b (inl (inl h, grown, same)) = absurd h
  do_work-Owed true (act n) ks b (inl (inr h, grown, same)) = inl (h, grown, same)
  do_work-Owed true (act n) ks b (inr done) = inr done

  thread_step-Owed :
      (s : Stage) (b : BackgroundThread) → Owed s b → Owed (thread_step s b).stage (thread_step s b)
  unfolding thread_step execute_task
  thread_step-Owed round b o = o
  thread_step-Owed asleep b o = o
  thread_step-Owed finished b (inl (h, grown, same)) = absurd h
  thread_step-Owed finished b (inr done) = inr done
  thread_step-Owed (before []) b (inl (h, grown, same)) = absurd h
  thread_step-Owed (before []) b (inr done) = inr done
  thread_step-Owed (before (k ∷ ks)) b o = do_work-Owed k.active k.work ks b o

  step-Owed : (e : Event) (b : BackgroundThread) → Owed b.stage b → Owed (step e b).stage (step e b)
  unfolding step
  step-Owed thread b o = thread_step-Owed b.stage b o
  step-Owed (log_call c) b (inl (h, grown, same)) = inl (h, call-Grown c ms r b.log grown, same)
  step-Owed (log_call c) b (inr done) = inr done
  step-Owed request_stop b o = o

  steps-Owed :
      (es : List Event) (b : BackgroundThread)
      → Owed b.stage b
      → Owed (steps es b).stage (steps es b)
  unfolding steps
  steps-Owed [] b o = o
  steps-Owed (e ∷ es) b o = steps-Owed es (step e b) (step-Owed e b o)

  finished-IsWritten :
      (s : Stage) (b : BackgroundThread) → s ≡ finished → Owed s b → IsWritten b.written
  finished-IsWritten s b e (inl (h, grown, same)) = absurd (subst (λ q. IsAhead q b.tasks) e h)
  finished-IsWritten s b e (inr done) = done

-- Whatever the order of the steps of the threads: when the thread has finished, all that was in the
-- log's queue at some time at which the thread had its active writer still before it, in the round
-- or in the next, has been written, in order and directly behind what had been written by then.
pub steps-written :
    (es : List Event) (b : BackgroundThread)
    → IsAhead b.stage b.tasks
    → (steps es b).stage ≡ finished
    → IsWritten b.log.messages b.log.next_receive b.written (steps es b).written
steps-written es b ahead end =
    finished-IsWritten b.log.messages b.log.next_receive b.written (steps es b).stage (steps es b)
      end
      (steps-Owed b.log.messages b.log.next_receive b.written es b
        (inl (ahead, ([], sym (append-nil b.log.messages), refl), refl)))
