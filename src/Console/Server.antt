-- ===== src/Console/Server.antt =====
-- src/Werk/Console/IpcConsoleServer.{hpp,cpp}. Times come from the real time clock, an argument.
pub mod Receive
pub mod Sequence
pub mod Connected
use werk.Prelude.{
  ℕ, ◌+◌, List, [], ◌∷◌, Option, none, some, Bool, true, false, ltb, ◌==◌, if◌then◌else◌,
}
use werk.Prelude.Words.{add_u64, sub_u64}
use werk.Prelude.Keys.{Text, nat_eq, lookup, insert}
use werk.Console.Message.{ConsoleMessage, ipc_console_magic, ipc_console_version, c_string}

pub record ClientState : Type 0 where
  pub last_sequence_number : ℕ
  pub last_heartbeat_time : ℕ
  pub last_command_time : ℕ

-- The entries of the log.
pub data Event : Type 0 where
  bad_magic mismatched_version : ℕ → Event
  client_connected : ℕ → Event
  out_of_order duplicate missing : ℕ → ℕ → ℕ → Event
  stale : ℕ → ℕ → ℕ → ℕ → Event
  received : ℕ → ℕ → Text → Event
  no_heartbeats : ℕ → ℕ → Event

-- The log is newest first.
pub record Server : Type 0 where
  pub inbox : List ConsoleMessage
  pub is_client_connected : Bool
  pub last_command_time : ℕ
  pub last_heartbeat_time : ℕ
  pub client_states : List (ℕ × ClientState)
  pub log : List Event

-- The out-parameters of `receive`.
pub record Received : Type 0 where
  pub client_pid : ℕ
  pub sequence_number : ℕ
  pub message : Text

unfoldable pub emit : Event → Server → Server
emit e s = record s { log = e ∷ s.log }

abbrev pub new_client : ClientState
new_client = record { last_sequence_number = 0; last_heartbeat_time = 0; last_command_time = 0 }

-- The check of a known client's sequence numbers.
unfoldable pub sequence_event : ℕ → ℕ → ℕ → List Event
sequence_event pid seq last =
    if ltb seq last
    then out_of_order pid seq last ∷ []
    else if seq == last
    then duplicate pid seq last ∷ []
    else if ltb (last + 1) seq
    then missing pid seq last ∷ []
    else []

abbrev emit_all : List Event → List Event → List Event
emit_all [] log = log
emit_all (e ∷ es) log = e ∷ log

-- The client's entry, new or resynchronised.
unfoldable pub register : ℕ → ℕ → Server → Server
unfolding emit sequence_event
register pid seq s = elim (lookup pid s.client_states) [
  | none ↦ emit (client_connected pid) (record s {
    is_client_connected = true;
    client_states = insert pid new_client s.client_states;
  })
  | some c ↦ record s {
    client_states = insert pid (record c { last_sequence_number = seq }) s.client_states;
    log = emit_all (sequence_event pid seq c.last_sequence_number) s.log;
  }
]

-- More than 3 s old.
unfoldable pub warn_stale : ℕ → ConsoleMessage → Server → Server
unfolding emit
warn_stale now m s =
    if ltb (add_u64 m.time 3_000_000_000) now
    then emit (stale m.client_pid m.sequence_number m.time (sub_u64 now m.time)) s
    else s

-- A write through the iterator `i`.
unfoldable pub modify : ℕ → (ClientState → ClientState) → Server → Server
modify pid f s = elim (lookup pid s.client_states) [
  | none ↦ s
  | some c ↦ record s { client_states = insert pid (f c) s.client_states }
]

-- Everything counts as a heartbeat, but commands must have content.
unfoldable pub touch : ℕ → ℕ → ℕ → Text → Server → Server
unfolding modify emit
touch now pid seq [] s =
    modify pid (λ c. record c { last_heartbeat_time = now })
      (record s { last_heartbeat_time = now })
touch now pid seq (ch ∷ text) s = emit (received pid seq (ch ∷ text)) (
    modify pid (λ c. record c { last_heartbeat_time = now; last_command_time = now })
      (record s { last_heartbeat_time = now; last_command_time = now }))

unfoldable pub receive_message : ℕ → ConsoleMessage → Server → Option Received × Server
unfolding emit register warn_stale touch
receive_message now m s =
    if m.magic == ipc_console_magic
    then if m.version == ipc_console_version
      then (
        some (record {
          client_pid = m.client_pid;
          sequence_number = m.sequence_number;
          message = c_string m.message;
        }),
        touch now m.client_pid m.sequence_number (c_string m.message)
            (warn_stale now m (register m.client_pid m.sequence_number s)),
      )
      else (none, emit (mismatched_version m.version) s)
    else (none, emit (bad_magic m.magic) s)

-- `receive`: `none` is false; the list is what the queue holds.
unfoldable pub receive_from : ℕ → Server → List ConsoleMessage → Option Received × Server
unfolding receive_message
receive_from now s [] = (none, s)
receive_from now s (m ∷ rest) = receive_message now m (record s { inbox = rest })

unfoldable pub receive : ℕ → Server → Option Received × Server
unfolding receive_from
receive now s = receive_from now s s.inbox

-- `update`, allowing up to 5 s without a message.
unfoldable pub update : ℕ → Server → Server
unfolding emit
update now s =
    if s.is_client_connected
    then if s.last_heartbeat_time == 0
      then s
      else if ltb (add_u64 s.last_heartbeat_time 5_000_000_000) now
      then emit (no_heartbeats s.last_command_time s.last_heartbeat_time)
          (record s { is_client_connected = false })
      else s
    else s
