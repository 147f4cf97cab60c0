-- ===== src/Console/Server/Sequence.antt =====
-- Sequence numbers over a session of a client.
use werk.Prelude.{
  ℕ, suc, ◌+◌, ◌<◌, ◌≡◌, refl, sym, ◌∙◌, ap, ap₂, subst, List, [], ◌∷◌, Option, none, some, arith,
  Option-cases, inl, inr, if◌then◌else◌, ◌==◌, ==_iff,
}
use werk.Prelude.Keys.{Text, nat_eq, lookup}
use werk.Console.Message.{ConsoleMessage, c_string}
use werk.Console.Server.{
  ClientState, Event, out_of_order, duplicate, missing, Server, Received, sequence_event, register,
  warn_stale, touch, receive_from, receive,
}
use werk.Console.Server.Receive.{
  IsGood, next_client, accept, accept-states, receive-good, register-fields, warn_stale-fields,
  touch-fields,
}

-- The complaints about sequence numbers in a log.
abbrev pub is_warning : Event → ℕ
is_warning (out_of_order pid seq last) = 1
is_warning (duplicate pid seq last) = 1
is_warning (missing pid seq last) = 1
is_warning _ = 0

abbrev pub warnings : List Event → ℕ
warnings [] = 0
warnings (e ∷ log) = is_warning e + warnings log

-- Those that a message from a client with this entry gives.
abbrev pub complaints : ℕ → ℕ → Option ClientState → ℕ
complaints pid seq none = 0
complaints pid seq (some c) = warnings (sequence_event pid seq c.last_sequence_number)

register-warnings :
    (pid seq : ℕ) (s : Server)
    → warnings (register pid seq s).log
      ≡ complaints pid seq (lookup pid s.client_states) + warnings s.log
unfolding register
register-warnings pid seq s = elim (Option-cases (lookup pid s.client_states)) [
  | inl e ↦ rw (e, register) (ground arith)
  | inr (c, e) ↦ rw (e, register) (ground arith)
]

warn_stale-warnings :
    (now : ℕ) (m : ConsoleMessage) (s : Server) → warnings (warn_stale now m s).log ≡ warnings s.log
unfolding warn_stale
warn_stale-warnings now m s = ground arith

touch-warnings :
    (now pid seq : ℕ) (text : Text) (s : Server)
    → warnings (touch now pid seq text s).log ≡ warnings s.log
unfolding touch
touch-warnings now pid seq [] s = ground arith
touch-warnings now pid seq (ch ∷ text) s = ground arith

accept-warnings :
    (now : ℕ) (m : ConsoleMessage) (s : Server)
    → warnings (accept now m s).log
      ≡ complaints m.client_pid m.sequence_number (lookup m.client_pid s.client_states)
        + warnings s.log
accept-warnings now m s =
    touch-warnings now m.client_pid m.sequence_number (c_string m.message) _
    ∙ warn_stale-warnings now m (register m.client_pid m.sequence_number s)
    ∙ register-warnings m.client_pid m.sequence_number s

-- One call of `receive` at each of the given times.
abbrev pub receive_each : List ℕ → Server → Server
receive_each [] s = s
receive_each (now ∷ times) s = receive_each times (receive now s).1

pub receive-empty : (now : ℕ) (s : Server) → s.inbox ≡ [] → (receive now s).1 ≡ s
unfolding receive
receive-empty now s e = ap (λ q. (receive_from now s q).1) e

pub accept-inbox : (now : ℕ) (m : ConsoleMessage) (s : Server) → (accept now m s).inbox ≡ s.inbox
accept-inbox now m s =
    let r = register m.client_pid m.sequence_number s in
    (touch-fields now m.client_pid m.sequence_number (c_string m.message) (warn_stale now m r)).0
    ∙ (warn_stale-fields now m r).3
    ∙ (register-fields m.client_pid m.sequence_number s).0

-- Valid messages of one client, numbered from `n` on.
abbrev pub Session : ℕ → ℕ → List ConsoleMessage → Type 0
Session pid n [] = Unit
Session pid n (m ∷ ms) =
    IsGood m × (m.client_pid ≡ pid) × (m.sequence_number ≡ n) × Session pid (suc n) ms

-- The server expects `n` next: the client is new and starts at 0, or `n` comes behind its last number.
abbrev pub Expects : ℕ → ℕ → Option ClientState → Type 0
Expects pid n none = n ≡ 0
Expects pid n (some c) = suc c.last_sequence_number ≡ n

Expects-complaints : (pid n : ℕ) (o : Option ClientState) → Expects pid n o → complaints pid n o ≡ 0
unfolding sequence_event
Expects-complaints pid n none h = refl
Expects-complaints pid n (some c) h = ground arith

Expects-next :
    (pid n now : ℕ) (text : Text) (o : Option ClientState)
    → Expects pid n o
    → Expects pid (suc n) (some (next_client now n text o))
Expects-next pid n now [] none h = ground arith
Expects-next pid n now (ch ∷ text) none h = ground arith
Expects-next pid n now [] (some c) h = refl
Expects-next pid n now (ch ∷ text) (some c) h = refl

-- `receive`, on a queue that holds these messages.
pub receive_step :
    (now : ℕ) (m : ConsoleMessage) (rest : List ConsoleMessage) (s : Server)
    → s.inbox ≡ m ∷ rest
    → IsGood m
    → (receive now s).1 ≡ accept now m (record s { inbox = rest })
receive_step now m rest s e g =
    ap (λ (p : Option Received × Server). p.1) (receive-good now m rest s e g)

session_found :
    (now pid n : ℕ) (m : ConsoleMessage) (s : Server)
    → m.client_pid ≡ pid
    → m.sequence_number ≡ n
    → lookup pid (accept now m s).client_states
      ≡ some (next_client now n (c_string m.message) (lookup pid s.client_states))
session_found now pid n m s by number =
    accept-states now pid m s
    ∙ ap₂
        (λ p k.
          if p == pid
          then some (next_client now k (c_string m.message) (lookup p s.client_states))
          else lookup pid s.client_states)
        by number
    ∙ ground (arith, ==_iff pid pid)

session_next :
    (now pid n : ℕ) (m : ConsoleMessage) (s : Server)
    → m.client_pid ≡ pid
    → m.sequence_number ≡ n
    → Expects pid n (lookup pid s.client_states)
    → Expects pid (suc n) (lookup pid (accept now m s).client_states)
session_next now pid n m s by number x =
    subst (Expects pid (suc n)) (sym (session_found now pid n m s by number))
      (Expects-next pid n now (c_string m.message) (lookup pid s.client_states) x)

session_complaints :
    (now pid n : ℕ) (m : ConsoleMessage) (s : Server)
    → m.client_pid ≡ pid
    → m.sequence_number ≡ n
    → warnings (accept now m s).log ≡ complaints pid n (lookup pid s.client_states) + warnings s.log
session_complaints now pid n m s by number =
    accept-warnings now m s
    ∙ ap₂ (λ p k. complaints p k (lookup p s.client_states) + warnings s.log) by number

session_quiet :
    (now pid n : ℕ) (m : ConsoleMessage) (s : Server)
    → m.client_pid ≡ pid
    → m.sequence_number ≡ n
    → Expects pid n (lookup pid s.client_states)
    → warnings (accept now m s).log ≡ warnings s.log
session_quiet now pid n m s by number x =
    session_complaints now pid n m s by number
    ∙ ap (λ k. k + warnings s.log) (Expects-complaints pid n (lookup pid s.client_states) x)
    ∙ omega arith

-- A session of one client that the server meets from its first message on, numbered from 0 without a
-- gap, or goes on with where it stands, gives no complaint about sequence numbers, however often and
-- whenever `receive` is called.
pub Session-warnings :
    (times : List ℕ) (pid n : ℕ) (ms : List ConsoleMessage) (s : Server)
    → s.inbox ≡ ms
    → Session pid n ms
    → Expects pid n (lookup pid s.client_states)
    → warnings (receive_each times s).log ≡ warnings s.log
Session-warnings [] pid n ms s e h x = refl
Session-warnings (now ∷ times) pid n [] s e h x =
    ap (λ s'. warnings (receive_each times s').log) (receive-empty now s e)
    ∙ Session-warnings times pid n [] s e h x
Session-warnings (now ∷ times) pid n (m ∷ ms) s e (good, by, number, h) x =
    let s0 = record s { inbox = ms } in
    ap (λ s'. warnings (receive_each times s').log) (receive_step now m ms s e good)
    ∙ Session-warnings times pid (suc n) ms (accept now m s0) (accept-inbox now m s0) h
        (session_next now pid n m s0 by number x)
    ∙ session_quiet now pid n m s0 by number x

unknown_complaints :
    (pid n now k : ℕ) (text : Text)
    → 1 < n
    → complaints pid n (some (next_client now k text none)) ≡ 1
unfolding sequence_event
unknown_complaints pid n now k [] h = ground arith
unknown_complaints pid n now k (ch ∷ text) h = ground arith

-- The server forgets the number of a client's first message: when a client that it does not know starts
-- at a number above 0, its second message gives a complaint though no number is missing.
pub first_contact-warns :
    (t1 t2 pid n : ℕ) (m1 m2 : ConsoleMessage) (rest : List ConsoleMessage) (s : Server)
    → s.inbox ≡ m1 ∷ m2 ∷ rest
    → Session pid (suc n) (m1 ∷ m2 ∷ [])
    → lookup pid s.client_states ≡ none
    → warnings (receive_each (t1 ∷ t2 ∷ []) s).log ≡ suc (warnings s.log)
first_contact-warns t1 t2 pid n m1 m2 rest s e (g1, b1, n1, (g2, b2, n2, _)) new =
    let s0 = record s { inbox = m2 ∷ rest } in
    let s1 = accept t1 m1 s0 in
    let s2 = record s1 { inbox = rest } in
    ap (λ s'. warnings (receive t2 s').1.log) (receive_step t1 m1 (m2 ∷ rest) s e g1)
    ∙ ap (λ (s' : Server). warnings s'.log) (receive_step t2 m2 rest s1 (accept-inbox t1 m1 s0) g2)
    ∙ session_complaints t2 pid (suc (suc n)) m2 s2 b2 n2
    ∙ ap (λ o. complaints pid (suc (suc n)) o + warnings s1.log)
        (session_found t1 pid (suc n) m1 s0 b1 n1
          ∙ ap (λ o. some (next_client t1 (suc n) (c_string m1.message) o)) new)
    ∙ ap (λ k. k + warnings s1.log)
        (unknown_complaints pid (suc (suc n)) t1 (suc n) (c_string m1.message) (omega arith))
    ∙ ap (λ k. 1 + k)
        (session_complaints t1 pid (suc n) m1 s0 b1 n1
          ∙ ap (λ o. complaints pid (suc n) o + warnings s.log) new)
    ∙ omega arith
