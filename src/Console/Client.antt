-- ===== src/Console/Client.antt =====
-- src/Werk/Console/IpcConsoleClient.{hpp,cpp}. The wall clock and the queue's answer are arguments.
pub mod Sending
use werk.Prelude.{ℕ, ◌+◌, ◌%◌, ◌^◌, [], Option, none, some, Bool, true, false, if◌then◌else◌, set}
use werk.Prelude.Keys.{Text}
use werk.Console.Message.{
  ConsoleMessage, ipc_console_magic, ipc_console_version, message_size, strncpy, c_string,
}

pub record Client : Type 0 where
  pub pid : ℕ
  pub next_sequence_number : ℕ

unfoldable pub pack : Text → Text
pack text = set (strncpy message_size (c_string text)) 251 0

unfoldable pub message_of : ℕ → Text → Client → ConsoleMessage
unfolding pack
message_of now text c = record {
  magic = ipc_console_magic;
  version = ipc_console_version;
  client_pid = c.pid;
  time = now;
  sequence_number = c.next_sequence_number;
  message = pack text;
}

-- `send`: what it returns, what goes into the queue, and the client after it. `sent` is the answer of
-- `try_send`.
unfoldable pub send : Bool → ℕ → Text → Client → Bool × Option ConsoleMessage × Client
unfolding message_of
send sent now text c =
    if sent
    then (
      true,
      some (message_of now text c),
      record c { next_sequence_number = (c.next_sequence_number + 1) % 2 ^ 32 },
    )
    else (false, none, c)

unfoldable pub heartbeat : Bool → ℕ → Client → Bool × Option ConsoleMessage × Client
unfolding send
heartbeat sent now c = send sent now [] c

-- The constructor sends a heartbeat.
unfoldable pub connect : Bool → ℕ → ℕ → Option ConsoleMessage × Client
unfolding heartbeat
connect sent now pid =
    let (r, m, c) = heartbeat sent now (record { pid = pid; next_sequence_number = 0 }) in (m, c)
