-- ===== src/Console/Server/Connected.antt =====
-- When the server counts a client as connected.
use werk.Prelude.{
  ℕ, ◌+◌, ◌<◌, ◌≡◌, refl, sym, ◌∙◌, ap, subst, List, [], ◌∷◌, none, some, true, arith, ◌⊎◌,
  Bool-cases, inl, inr, leb, ◌==◌, All,
}
use werk.Prelude.Words.{u64_mod}
use werk.Prelude.Keys.{nat_eq, lookup}
use werk.Console.Message.{ConsoleMessage, ipc_console_magic, ipc_console_version, c_string}
use werk.Console.Server.{
  ClientState, Server, register, warn_stale, receive_message, receive_from, receive, update,
}
use werk.Console.Server.Receive.{
  IsGood, next_client, accept, accept-states, warn_stale-fields, touch-fields,
}
use werk.Console.Server.Sequence.{receive_each, receive-empty, receive_step, accept-inbox}

register-connected :
    (pid seq : ℕ) (s : Server)
    → (register pid seq s).is_client_connected
      ≡ elim (lookup pid s.client_states) [ none ↦ true | some c ↦ s.is_client_connected ]
unfolding register
register-connected pid seq s = ground arith

accept-connected :
    (now : ℕ) (m : ConsoleMessage) (s : Server)
    → (accept now m s).is_client_connected
      ≡ elim (lookup m.client_pid s.client_states) [ none ↦ true | some c ↦ s.is_client_connected ]
accept-connected now m s =
    let r = register m.client_pid m.sequence_number s in
    (touch-fields now m.client_pid m.sequence_number (c_string m.message) (warn_stale now m r)).1
    ∙ (warn_stale-fields now m r).1
    ∙ register-connected m.client_pid m.sequence_number s

accept-heartbeat :
    (now : ℕ) (m : ConsoleMessage) (s : Server) → (accept now m s).last_heartbeat_time ≡ now
accept-heartbeat now m s =
    (touch-fields now m.client_pid m.sequence_number (c_string m.message)
      (warn_stale now m (register m.client_pid m.sequence_number s))).2

-- A client that the server does not know is counted as connected from its first valid message on, for
-- exactly 5 s at a time: an `update` at a later time of the clock keeps it if and only if no more than
-- 5 s have passed.
pub connects :
    (now later : ℕ) (m : ConsoleMessage) (rest : List ConsoleMessage) (s : Server)
    → s.inbox ≡ m ∷ rest
    → IsGood m
    → lookup m.client_pid s.client_states ≡ none
    → 0 < now
    → now + 5_000_000_000 < u64_mod
    → (update later (receive now s).1).is_client_connected ≡ leb later (now + 5_000_000_000)
unfolding update
connects now later m rest s e g new h w =
    let s0 = record s { inbox = rest } in
    ap (λ s'. (update later s').is_client_connected) (receive_step now m rest s e g)
    ∙ ground (arith, accept-heartbeat now m s0, accept-connected now m s0, new)

abbrev pub Known : Server → ConsoleMessage → Type 0
Known s m = (c : ClientState) × (lookup m.client_pid s.client_states ≡ some c)

-- Nothing in the queue but messages of clients that the server knows already, or that it refuses.
abbrev pub AllKnown : Server → List ConsoleMessage → Type 0
AllKnown s = All (Known s)

accept-Known : (now : ℕ) (m k : ConsoleMessage) (s : Server) → Known s k → Known (accept now m s) k
accept-Known now m k s (c, e) = elim (Bool-cases (m.client_pid == k.client_pid)) [
  | inl same ↦ (
    next_client now m.sequence_number (c_string m.message) (lookup m.client_pid s.client_states),
    ground (arith, accept-states now k.client_pid m s, same),
  )
  | inr other ↦ (c, ground (arith, accept-states now k.client_pid m s, other))
]

All-accept-Known :
    (now : ℕ) (m : ConsoleMessage) (s : Server) (ms : List ConsoleMessage)
    → AllKnown s ms
    → AllKnown (accept now m s) ms
All-accept-Known now m s [] h = tt
All-accept-Known now m s (k ∷ ms) h = (accept-Known now m k s h.0, All-accept-Known now m s ms h.1)

-- A message that is refused changes only the queue and the log.
record Refused (s s' : Server) (rest : List ConsoleMessage) : Type 0 where
  inbox : s'.inbox ≡ rest
  states : s'.client_states ≡ s.client_states
  connected : s'.is_client_connected ≡ s.is_client_connected

receive_cases :
    (now : ℕ) (m : ConsoleMessage) (rest : List ConsoleMessage) (s : Server)
    → s.inbox ≡ m ∷ rest
    → IsGood m ⊎ Refused s (receive now s).1 rest
unfolding receive_message receive_from receive
receive_cases now m rest s e = elim (Bool-cases (m.magic == ipc_console_magic)) [
  | inr bad ↦ inr (refused (ground (arith, bad)))
  | inl magic ↦ elim (Bool-cases (m.version == ipc_console_version)) [
    | inr bad ↦ inr (refused (ground (arith, magic, bad)))
    | inl version ↦ inl (ground (arith, magic, version))
  ]
]
  where
    refused :
        Refused s (receive_message now m (record s { inbox = rest })).1 rest
        → Refused s (receive now s).1 rest
    refused = subst (λ q. Refused s (receive_from now s q).1 rest) (sym e)

AllKnown-same :
    (s s' : Server) (ms : List ConsoleMessage)
    → s'.client_states ≡ s.client_states
    → AllKnown s ms
    → AllKnown s' ms
AllKnown-same s s' [] e h = tt
AllKnown-same s s' (k ∷ ms) e h =
    ((h.0.0, ap (lookup k.client_pid) e ∙ h.0.1), AllKnown-same s s' ms e h.1)

-- Messages of clients that the server knows already do not change whether it counts a client as
-- connected: once `update` has found the heartbeats missing, a known client that resumes is never
-- counted again, however many messages it sends.
pub receive_each-connected :
    (times : List ℕ) (ms : List ConsoleMessage) (s : Server)
    → s.inbox ≡ ms
    → AllKnown s ms
    → (receive_each times s).is_client_connected ≡ s.is_client_connected
receive_each-connected [] ms s e h = refl
receive_each-connected (now ∷ times) [] s e h =
    ap (λ s'. (receive_each times s').is_client_connected) (receive-empty now s e)
    ∙ receive_each-connected times [] s e h
receive_each-connected (now ∷ times) (m ∷ ms) s e h = elim (receive_cases now m ms s e) [
  | inl good ↦
      let s0 = record s { inbox = ms } in
      ap (λ s'. (receive_each times s').is_client_connected) (receive_step now m ms s e good)
      ∙ receive_each-connected times ms (accept now m s0) (accept-inbox now m s0)
          (All-accept-Known now m s0 ms (AllKnown-same s s0 ms refl h.1))
      ∙ ground (arith, accept-connected now m s0, h.0.1)
  | inr r ↦
      receive_each-connected times ms (receive now s).1 r.inbox
        (AllKnown-same s (receive now s).1 ms r.states h.1)
      ∙ r.connected
]
