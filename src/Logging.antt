-- ===== src/Logging.antt =====
-- src/Werk/Logging/AsyncLog.{hpp,cpp} and LogMessage.hpp: messages that are numbered and queued by
-- the callers and written in the background. The queue is a list with the capacity of the source.
pub mod Order
mod Tests
use werk.Prelude.{ℕ, ◌+◌, List, [], ◌∷◌, ◌++◌, ◌==◌, ltb, leb, if◌then◌else◌, length, take}
use werk.Prelude.Words.{add_u64}
use werk.Prelude.Keys.{Text}
use werk.Commands.{LogLevel}

abbrev pub max_line_length : ℕ
max_line_length = 992

abbrev pub capacity : ℕ
capacity = 4096

pub record LogMessage : Type 0 where
  pub sequence_number : ℕ
  pub time : ℕ
  pub level : LogLevel
  pub length_field : ℕ
  pub message : Text

-- What is written to the file.
pub data Written : Type 0 where
  incorrect : ℕ → ℕ → ℕ → Written
  json : ℕ → ℕ → Text → Written
  line : ℕ → ℕ → LogLevel → Text → Written

pub record AsyncLog : Type 0 where
  pub next_send : ℕ
  pub next_receive : ℕ
  pub messages : List LogMessage

-- `push` leaves a full queue alone, and its answer is not looked at.
unfoldable pub push : LogMessage → AsyncLog → AsyncLog
push m l =
    if ltb (length l.messages) capacity then record l { messages = l.messages ++ (m ∷ []) } else l

-- The text that `vsnprintf` and `strncpy` leave in the buffer, up to its closing zero.
abbrev pub cut : Text → Text
cut text = take 991 text

-- `message.length` of a text that `vsnprintf` formatted.
unfoldable pub length_of : Text → ℕ
length_of text = if leb max_line_length (length text) then max_line_length else length text + 1

-- `log`, given the time of the clock, and the formatted text.
unfoldable pub log : ℕ → LogLevel → Text → AsyncLog → AsyncLog
unfolding push length_of
log time level text l =
    push
      (record {
        sequence_number = l.next_send;
        time = time;
        level = level;
        length_field = length_of text;
        message = cut text;
      })
      (record l { next_send = add_u64 l.next_send 1 })

unfoldable pub log_raw : ℕ → LogLevel → Text → AsyncLog → AsyncLog
unfolding push
log_raw time level text l =
    push
      (record {
        sequence_number = l.next_send;
        time = time;
        level = level;
        length_field = max_line_length;
        message = cut text;
      })
      (record l { next_send = add_u64 l.next_send 1 })

unfoldable pub write : LogMessage → Written
write m = write_at m.level
  where
    write_at : LogLevel → Written
    write_at LogLevel.json = json m.time m.sequence_number m.message
    write_at level = line m.time m.sequence_number level m.message

-- The loop of `execute`: what is written, and the number that is expected next.
unfoldable pub drain : List LogMessage → ℕ → List Written × ℕ
unfolding write
drain [] next = ([], next)
drain (m ∷ ms) next =
    let (ws, after) = drain ms (add_u64 m.sequence_number 1) in
    (
      if m.sequence_number == next
          then write m ∷ ws
          else incorrect m.time next m.sequence_number ∷ write m ∷ ws,
      after,
    )

unfoldable pub execute : AsyncLog → List Written × AsyncLog
unfolding drain
execute l =
    let (ws, after) = drain l.messages l.next_receive in
    (ws, record l { messages = []; next_receive = after })
