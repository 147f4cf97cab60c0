-- ===== src/Console/Client/Sending.antt =====
-- What a client puts into the queue, and what the server makes of it.
use werk.Prelude.{
  ℕ, zero, suc, ◌+◌, ◌%◌, ◌^◌, ◌<◌, ◌≡◌, ◌≢◌, refl, sym, subst, List, [], ◌∷◌, Option, none, some,
  Bool, true, false, arith, Bool-cases, inl, inr, ◌==◌, length, take, set, All,
}
use werk.Prelude.Keys.{Text, nat_eq, lookup}
use werk.Console.Message.{ConsoleMessage, c_string, strncpy}
use werk.Console.Server.{Server}
use werk.Console.Server.Sequence.{Session, Expects, warnings, receive_each, Session-warnings}
use werk.Console.Client.{Client, pack, send, connect}

abbrev NoZero : Text → Type 0
NoZero = All (λ c. c ≢ 0)

c_string-NoZero : (t : Text) → NoZero (c_string t)
c_string-NoZero [] = tt
c_string-NoZero (c ∷ cs) = elim (Bool-cases (c == 0)) [
  | inl e ↦ rw e tt
  | inr e ↦ rw e ((λ z. absurd (ground (arith, z, e))), c_string-NoZero cs)
]

c_string-strncpy : (n : ℕ) (t : Text) → NoZero t → c_string (set (strncpy (suc n) t) n 0) ≡ take n t
c_string-strncpy zero [] h = refl
c_string-strncpy zero (c ∷ cs) h = refl
c_string-strncpy (suc n) [] h = refl
c_string-strncpy (suc n) (c ∷ cs) h = ground (arith, c_string-strncpy n cs h.1, h.0)

-- The text that the server reads out of a message is what the client sent, cut to 251 bytes.
pub c_string-pack : (t : Text) → c_string (pack t) ≡ take 251 (c_string t)
unfolding pack
c_string-pack t = c_string-strncpy 251 (c_string t) (c_string-NoZero t)

-- Attempts to send, each with the answer of the queue, the time and the text.
abbrev pub Attempt : Type 0
Attempt = Bool × ℕ × Text

-- The messages that reach the queue.
abbrev queued : Option ConsoleMessage → List ConsoleMessage → List ConsoleMessage
queued none ms = ms
queued (some m) ms = m ∷ ms

abbrev pub send_each : List Attempt → Client → List ConsoleMessage
send_each [] c = []
send_each ((sent, now, text) ∷ calls) c =
    let (r, m, c') = send sent now text c in queued m (send_each calls c')

-- The messages that reach the queue are numbered without a gap, whichever attempts failed, as long as
-- the number does not wrap.
pub send_each-Session :
    (calls : List Attempt) (c : Client)
    → c.next_sequence_number + length calls < 2 ^ 32
    → Session c.pid c.next_sequence_number (send_each calls c)
unfolding send
send_each-Session [] c h = tt
send_each-Session ((true, now, text) ∷ calls) c h = (
  record { magic = refl; version = refl },
  refl,
  refl,
  subst (λ n. Session c.pid n (send_each calls next)) numbered
      (send_each-Session calls next (omega arith)),
)
  where
    next : Client
    next = record c { next_sequence_number = (c.next_sequence_number + 1) % 2 ^ 32 }

    numbered : next.next_sequence_number ≡ suc c.next_sequence_number
    numbered = omega arith
send_each-Session ((false, now, text) ∷ calls) c h = send_each-Session calls c (omega arith)

-- A client's life: the heartbeat of its constructor, then its attempts to send.
abbrev pub client_messages : Bool → ℕ → ℕ → List Attempt → List ConsoleMessage
client_messages sent now pid calls =
    let (m, c) = connect sent now pid in queued m (send_each calls c)

-- Whichever of the attempts of a client fail, fewer than 2^32 - 1 of them, and whenever the server
-- receives, a server that meets the client first, and whose queue holds the messages of this client
-- alone, has no complaint about sequence numbers.
pub client_messages-warnings :
    (times : List ℕ) (sent : Bool) (now pid : ℕ) (calls : List Attempt) (s : Server)
    → length calls + 1 < 2 ^ 32
    → s.inbox ≡ client_messages sent now pid calls
    → lookup pid s.client_states ≡ none
    → warnings (receive_each times s).log ≡ warnings s.log
unfolding connect
client_messages-warnings times sent now pid calls s h e new =
    Session-warnings times pid 0 (send_each ((sent, now, []) ∷ calls) fresh) s e
      (send_each-Session ((sent, now, []) ∷ calls) fresh (omega arith))
      (subst (Expects pid 0) (sym new) refl)
  where
    fresh : Client
    fresh = record { pid = pid; next_sequence_number = 0 }
