-- ===== src/Console/Tests.antt =====
-- The theorems of the console at concrete messages.
use werk.Prelude.{ℕ, ◌≡◌, refl, List, [], ◌∷◌, some, true, false, arith}
use werk.Prelude.Keys.{nat_eq, lookup}
use werk.Commands.{Tools, null, Manager, receive as receive_line, execute}
use werk.Console.Message.{ConsoleMessage, ipc_console_magic, ipc_console_version}
use werk.Console.Server.{ClientState, Server, receive}
use werk.Console.Server.Receive.{IsGood, receive-states}
use werk.Console.Server.Sequence.{warnings, receive_each}
use werk.Console.Client.Sending.{Attempt, client_messages, client_messages-warnings}
use werk.Console.Receiver.{run_message, receiver_loop}
use werk.Console.Receiver.Drain.{receiver_loop_lem}

abbrev numbered : ℕ → ConsoleMessage
numbered n = record {
  magic = ipc_console_magic;
  version = ipc_console_version;
  client_pid = 42;
  time = 90;
  sequence_number = n;
  message = b'h' ∷ b'i' ∷ 0 ∷ [];
}

numbered-IsGood : (n : ℕ) → IsGood (numbered n)
numbered-IsGood n = record { magic = refl; version = refl }

abbrev server : List ConsoleMessage → List (ℕ × ClientState) → Server
server inbox states = record {
  inbox = inbox;
  is_client_connected = false;
  last_command_time = 0;
  last_heartbeat_time = 0;
  client_states = states;
  log = [];
}

receive-states_example : (receive 100 (server (numbered 7 ∷ []) [])).1.last_heartbeat_time ≡ 100
receive-states_example =
    (receive-states 100 (numbered 7) [] (server (numbered 7 ∷ []) []) refl (numbered-IsGood 7)).2

abbrev attempts : List Attempt
attempts = (true, 10, b'a' ∷ []) ∷ (false, 11, b'b' ∷ []) ∷ (true, 12, b'c' ∷ []) ∷ []

client_messages-warnings_example :
    warnings
      (receive_each (100 ∷ 200 ∷ 300 ∷ []) (server (client_messages true 9 42 attempts) [])).log
    ≡ 0
client_messages-warnings_example =
    client_messages-warnings (100 ∷ 200 ∷ 300 ∷ []) true 9 42 attempts
      (server (client_messages true 9 42 attempts) []) (omega arith) refl (unfold lookup in refl)

abbrev no_tools : Tools
no_tools = record {
  trim = λ t. t;
  split = λ t. t ∷ [];
  split_plain = λ t. t ∷ [];
  join = λ ts. [];
  custom = λ c args. true;
  stale = λ h l. l;
}

-- "hi" is the null command.
abbrev manager : Manager
manager = record { commands = (b'h' ∷ b'i' ∷ [], null) ∷ []; history = []; events = [] }

-- A message with a wrong magic between two good ones.
abbrev mixed : List ConsoleMessage
mixed = numbered 0 ∷ record (numbered 1) { magic = 1 } ∷ numbered 2 ∷ []

receiver_loop_lem_example :
    (s' : Server) × (receiver_loop no_tools 2 5 100 (server mixed []) manager
      ≡ some (s', receive_line no_tools 100 (b'h' ∷ b'i' ∷ []) manager))
    × (s'.inbox ≡ numbered 2 ∷ [])
receiver_loop_lem_example =
    receiver_loop_lem no_tools 5 100 (numbered 0 ∷ [])
      (record (numbered 1) { magic = 1 } ∷ numbered 2 ∷ []) (numbered 2 ∷ []) 2 (server mixed [])
      manager (receive_line no_tools 100 (b'h' ∷ b'i' ∷ []) manager) refl (numbered-IsGood 0, tt)
      ((λ g. absurd (omega (arith, g.magic))), refl) (omega arith)
      (unfold run_message execute lookup in refl)
