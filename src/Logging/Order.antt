-- ===== src/Logging/Order.antt =====
-- What is logged is written, in order.
use werk.Prelude.{
  ℕ, ◌+◌, ◌≤◌, ◌<◌, ◌≡◌, refl, ◌∙◌, ap, sym, List, [], ◌∷◌, ◌++◌, false, ◌==◌, ltb, lt→ltb, if-true,
  length, length-append, arith,
}
use mathlib.Core.List.{append-nil, append_assoc}
use werk.Prelude.Words.{add_u64}
use werk.Prelude.Keys.{Text}
use werk.Commands.{LogLevel}
use werk.Logging.{
  LogMessage, Written, incorrect, AsyncLog, push, cut, length_of, log, log_raw, write, drain,
  execute, max_line_length, capacity,
}

-- A call of `log` or of `logRaw`, at a time of the clock.
pub data Call : Type 0 where
  formatted raw : ℕ → LogLevel → Text → Call

abbrev pub call : Call → AsyncLog → AsyncLog
call (formatted time level text) l = log time level text l
call (raw time level text) l = log_raw time level text l

abbrev pub calls : List Call → AsyncLog → AsyncLog
calls [] l = l
calls (c ∷ cs) l = calls cs (call c l)

abbrev pub message_of : ℕ → Call → LogMessage
message_of n (formatted time level text) = record {
  sequence_number = n;
  time = time;
  level = level;
  length_field = length_of text;
  message = cut text;
}
message_of n (raw time level text) = record {
  sequence_number = n;
  time = time;
  level = level;
  length_field = max_line_length;
  message = cut text;
}

-- The messages of calls, numbered from a number on.
abbrev pub numbered : ℕ → List Call → List LogMessage
numbered n [] = []
numbered n (c ∷ cs) = message_of n c ∷ numbered (add_u64 n 1) cs

abbrev pub number_after : ℕ → List Call → ℕ
number_after n [] = n
number_after n (c ∷ cs) = number_after (add_u64 n 1) cs

abbrev pub lines : List LogMessage → List Written
lines [] = []
lines (m ∷ ms) = write m ∷ lines ms

drain-numbered :
    (n : ℕ) (cs : List Call) → drain (numbered n cs) n ≡ (lines (numbered n cs), number_after n cs)
unfolding drain
drain-numbered n [] = refl
drain-numbered n (formatted time level text ∷ cs) =
    rw (drain-numbered (add_u64 n 1) cs) (ground arith)
drain-numbered n (raw time level text ∷ cs) = rw (drain-numbered (add_u64 n 1) cs) (ground arith)

pub call-message :
    (c : Call) (l : AsyncLog)
    → length l.messages < capacity
    → call c l ≡ record l {
      next_send = add_u64 l.next_send 1;
      messages = l.messages ++ (message_of l.next_send c ∷ []);
    }
unfolding log log_raw push
call-message (formatted time level text) l h =
    if-true (ltb (length l.messages) capacity) _ _ (lt→ltb (length l.messages) capacity h)
call-message (raw time level text) l h =
    if-true (ltb (length l.messages) capacity) _ _ (lt→ltb (length l.messages) capacity h)

calls-messages :
    (cs : List Call) (n r : ℕ) (ms : List LogMessage)
    → length ms + length cs ≤ capacity
    → calls cs (record { next_send = n; next_receive = r; messages = ms })
      ≡ record { next_send = number_after n cs; next_receive = r; messages = ms ++ numbered n cs }
calls-messages [] n r ms h =
    ap (λ ms'. record { next_send = n; next_receive = r; messages = ms' }) (sym (append-nil ms))
calls-messages (c ∷ cs) n r ms h =
    ap (calls cs)
      (call-message c (record { next_send = n; next_receive = r; messages = ms }) (omega arith))
    ∙ calls-messages cs (add_u64 n 1) r (ms ++ (message_of n c ∷ []))
        (omega (arith, length-append ms (message_of n c ∷ [])))
    ∙ ap
        (λ ms'. record {
          next_send = number_after (add_u64 n 1) cs;
          next_receive = r;
          messages = ms';
        })
        (append_assoc ms (message_of n c ∷ []) (numbered (add_u64 n 1) cs))

-- Between two executions of the background task, calls that the queue has room for are written
-- without loss, in their order, numbered on, each cut to the size of the buffer and with no
-- complaint about a number; the task is then ready for the next number.
pub execute-calls :
    (n : ℕ) (cs : List Call)
    → length cs ≤ capacity
    → execute (calls cs (record { next_send = n; next_receive = n; messages = [] })) ≡ (
      lines (numbered n cs),
      record { next_send = number_after n cs; next_receive = number_after n cs; messages = [] },
    )
unfolding execute
execute-calls n cs h =
    ap execute (calls-messages cs n n [] (omega arith))
    ∙ ap (λ p. (p.0, record { next_send = number_after n cs; next_receive = p.1; messages = [] }))
        (drain-numbered n cs)

abbrev pub time_of : Call → ℕ
time_of (formatted time level text) = time
time_of (raw time level text) = time

drain-gap :
    (n r : ℕ) (c : Call) (cs : List Call)
    → (n == r) ≡ false
    → drain (numbered n (c ∷ cs)) r
      ≡ (incorrect (time_of c) r n ∷ lines (numbered n (c ∷ cs)), number_after n (c ∷ cs))
unfolding drain
drain-gap n r (formatted time level text) cs h = rw (drain-numbered (add_u64 n 1) cs, h) refl
drain-gap n r (raw time level text) cs h = rw (drain-numbered (add_u64 n 1) cs, h) refl

-- When the numbers of the callers have run ahead of the task, since the queue was full, the next
-- execution complains once, in front of the first message, and writes all the messages.
pub execute-gap :
    (n r : ℕ) (c : Call) (cs : List Call)
    → length (c ∷ cs) ≤ capacity
    → (n == r) ≡ false
    → execute (calls (c ∷ cs) (record { next_send = n; next_receive = r; messages = [] })) ≡ (
      incorrect (time_of c) r n ∷ lines (numbered n (c ∷ cs)),
      record {
        next_send = number_after n (c ∷ cs);
        next_receive = number_after n (c ∷ cs);
        messages = [];
      },
    )
unfolding execute
execute-gap n r c cs h gap =
    ap execute (calls-messages (c ∷ cs) n r [] (omega arith))
    ∙ ap
        (λ p.
          (p.0, record { next_send = number_after n (c ∷ cs); next_receive = p.1; messages = [] }))
        (drain-gap n r c cs gap)
