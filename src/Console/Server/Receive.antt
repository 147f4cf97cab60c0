-- ===== src/Console/Server/Receive.antt =====
-- What a valid message does to the server, and the sequence numbers of a session.
use werk.Prelude.{
  ℕ, ◌≡◌, refl, ◌∙◌, ap, List, [], ◌∷◌, Option, none, some, arith, Option-cases, inl, inr,
  if◌then◌else◌, ◌==◌, ==_iff,
}
use werk.Prelude.Keys.{Text, nat_eq, lookup, lookup-insert}
use werk.Console.Message.{ConsoleMessage, ipc_console_magic, ipc_console_version, c_string}
use werk.Console.Server.{
  ClientState, Server, emit, new_client, register, warn_stale, modify, touch, receive_message,
  receive_from, receive,
}

pub record IsGood (m : ConsoleMessage) : Type 0 where
  pub magic : m.magic ≡ ipc_console_magic
  pub version : m.version ≡ ipc_console_version

-- A client's entry after a message, from its entry before.
abbrev pub with_command : ℕ → Text → ClientState → ClientState
with_command now [] c = record c { last_heartbeat_time = now }
with_command now (ch ∷ text) c = record c { last_heartbeat_time = now; last_command_time = now }

abbrev pub entry : ℕ → Option ClientState → ClientState
entry seq none = new_client
entry seq (some c) = record c { last_sequence_number = seq }

abbrev pub next_client : ℕ → ℕ → Text → Option ClientState → ClientState
next_client now seq text o = with_command now text (entry seq o)

register-states :
    (pid seq j : ℕ) (s : Server)
    → lookup j (register pid seq s).client_states ≡ (
        if pid == j
        then some (entry seq (lookup pid s.client_states))
        else lookup j s.client_states)
unfolding register
register-states pid seq j s = elim (Option-cases (lookup pid s.client_states)) [
  | inl e ↦ rw (e, register) (lookup-insert pid j new_client s.client_states)
  | inr (c, e) ↦
      rw (e, register)
        (lookup-insert pid j (record c { last_sequence_number = seq }) s.client_states)
]

modify-states :
    (pid j : ℕ) (f : ClientState → ClientState) (c : ClientState) (s : Server)
    → lookup pid s.client_states ≡ some c
    → lookup j (modify pid f s).client_states
      ≡ (if pid == j then some (f c) else lookup j s.client_states)
unfolding modify
modify-states pid j f c s e = rw (e, modify) (lookup-insert pid j (f c) s.client_states)

touch-states :
    (now pid seq j : ℕ) (text : Text) (c : ClientState) (s : Server)
    → lookup pid s.client_states ≡ some c
    → lookup j (touch now pid seq text s).client_states
      ≡ (if pid == j then some (with_command now text c) else lookup j s.client_states)
unfolding touch emit
touch-states now pid seq j [] c s e =
    modify-states pid j _ c (record s { last_heartbeat_time = now }) e
touch-states now pid seq j (ch ∷ text) c s e =
    modify-states pid j _ c (record s { last_heartbeat_time = now; last_command_time = now }) e

-- `warn_stale` only writes to the log.
pub warn_stale-fields :
    (now : ℕ) (m : ConsoleMessage) (s : Server)
    → ((warn_stale now m s).client_states ≡ s.client_states)
      × ((warn_stale now m s).is_client_connected ≡ s.is_client_connected)
      × ((warn_stale now m s).last_command_time ≡ s.last_command_time)
      × ((warn_stale now m s).inbox ≡ s.inbox)
unfolding warn_stale
warn_stale-fields now m s = ground arith

pub register-fields :
    (pid seq : ℕ) (s : Server)
    → ((register pid seq s).inbox ≡ s.inbox)
      × ((register pid seq s).last_command_time ≡ s.last_command_time)
unfolding register
register-fields pid seq s = ground arith

pub touch-fields :
    (now pid seq : ℕ) (text : Text) (s : Server)
    → ((touch now pid seq text s).inbox ≡ s.inbox)
      × ((touch now pid seq text s).is_client_connected ≡ s.is_client_connected)
      × ((touch now pid seq text s).last_heartbeat_time ≡ now)
      × ((touch now pid seq text s).last_command_time
          ≡ elim text [ [] ↦ s.last_command_time | ch ∷ cs ↦ now ])
unfolding touch
touch-fields now pid seq [] s = ground arith
touch-fields now pid seq (ch ∷ text) s = ground arith

-- What `receive` does with a valid message.
abbrev pub accept : ℕ → ConsoleMessage → Server → Server
accept now m s =
    touch now m.client_pid m.sequence_number (c_string m.message)
      (warn_stale now m (register m.client_pid m.sequence_number s))

pub receive-good :
    (now : ℕ) (m : ConsoleMessage) (rest : List ConsoleMessage) (s : Server)
    → s.inbox ≡ m ∷ rest
    → IsGood m
    → receive now s ≡ (
      some (record {
        client_pid = m.client_pid;
        sequence_number = m.sequence_number;
        message = c_string m.message;
      }),
      accept now m (record s { inbox = rest }),
    )
unfolding receive
receive-good now m rest s e g =
    ap (receive_from now s) e ∙ unfold receive_message in ground (arith, g.magic, g.version)

register-known :
    (pid seq : ℕ) (s : Server)
    → lookup pid (register pid seq s).client_states ≡ some (entry seq (lookup pid s.client_states))
register-known pid seq s = ground (arith, register-states pid seq pid s, ==_iff pid pid)

pub accept-states :
    (now j : ℕ) (m : ConsoleMessage) (s : Server)
    → lookup j (accept now m s).client_states ≡ (
        if m.client_pid == j
        then some (
            next_client now m.sequence_number
              (c_string m.message)
              (lookup m.client_pid s.client_states))
        else lookup j s.client_states)
accept-states now j m s =
    let pid = m.client_pid in
    let r = register pid m.sequence_number s in
    let w = warn_stale now m r in
    let known =
      ap (lookup pid) (warn_stale-fields now m r).0 ∙ register-known pid m.sequence_number s in
    ground (
      arith,
      touch-states now pid m.sequence_number j (c_string m.message)
          (entry m.sequence_number (lookup pid s.client_states)) w known,
      ap (lookup j) (warn_stale-fields now m r).0,
      register-states pid m.sequence_number j s,
    )

-- A valid message at the head of the queue is delivered and taken off it. The sender's entry is
-- resynchronised, or made anew with sequence number 0 if the sender is unknown; its heartbeat time and
-- the server's become the time of the clock, and the command times too if the message has content. No
-- other client's entry changes.
pub receive-states :
    (now : ℕ) (m : ConsoleMessage) (rest : List ConsoleMessage) (s : Server)
    → s.inbox ≡ m ∷ rest
    → IsGood m
    → let (r, s') = receive now s in
      (r
        ≡ some (record {
          client_pid = m.client_pid;
          sequence_number = m.sequence_number;
          message = c_string m.message;
        }))
      × (s'.inbox ≡ rest)
      × (s'.last_heartbeat_time ≡ now)
      × (s'.last_command_time
          ≡ elim (c_string m.message) [ [] ↦ s.last_command_time | ch ∷ cs ↦ now ])
      × ((j : ℕ)
          → lookup j s'.client_states ≡ (
              if m.client_pid == j
              then some (
                  next_client now m.sequence_number
                    (c_string m.message)
                    (lookup m.client_pid s.client_states))
              else lookup j s.client_states))
receive-states now m rest s e g =
    let pid = m.client_pid in
    let s0 = record s { inbox = rest } in
    let r = register pid m.sequence_number s0 in
    let w = warn_stale now m r in
    let t = touch-fields now pid m.sequence_number (c_string m.message) w in
    let wf = warn_stale-fields now m r in
    let rf = register-fields pid m.sequence_number s0 in
    rw (receive-good now m rest s e g) (
      refl,
      t.0 ∙ wf.3 ∙ rf.0,
      t.2,
      t.3 ∙ ap (λ (x : ℕ). elim (c_string m.message) [ [] ↦ x | ch ∷ cs ↦ now ]) (wf.2 ∙ rf.1),
      λ j. accept-states now j m s0,
    )
