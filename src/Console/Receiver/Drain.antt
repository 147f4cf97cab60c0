-- ===== src/Console/Receiver/Drain.antt =====
-- What one execution of the receiver takes out of the queue.
use mathlib.Core.Option
use werk.Prelude.{
  Option-cases, ℕ, zero, suc, ◌<◌, ◌≡◌, refl, sym, ◌∙◌, ap, List, [], ◌∷◌, ◌++◌, Option, none, some,
  arith, Bool-cases, inl, inr, ◌==◌, length, All,
}
use werk.Commands.{Tools, Manager}
use werk.Console.Message.{ConsoleMessage, ipc_console_magic, ipc_console_version, c_string}
use werk.Console.Server.{Server, Received, receive_from, receive_message, receive}
use werk.Console.Server.Receive.{IsGood, accept, receive-good}
use werk.Console.Server.Sequence.{accept-inbox}
use werk.Console.Receiver.{run_message, receiver_loop}

module _ (tools : Tools) (calls now : ℕ) where
  -- The texts of messages, run one after the other.
  abbrev pub run_all : List ConsoleMessage → Manager → Option Manager
  run_all [] m = some m
  run_all (k ∷ ks) m = elim (run_message tools calls now (c_string k.message) m) [
    | none ↦ none
    | some m' ↦ run_all ks m'
  ]

  run_all-none :
      (k : ConsoleMessage) (ks : List ConsoleMessage) (m : Manager)
      → run_message tools calls now (c_string k.message) m ≡ none
      → run_all (k ∷ ks) m ≡ none
  run_all-none k ks m e = rw (e, run_all) refl

  run_all-some :
      (k : ConsoleMessage) (ks : List ConsoleMessage) (m m' : Manager)
      → run_message tools calls now (c_string k.message) m ≡ some m'
      → run_all (k ∷ ks) m ≡ run_all ks m'
  run_all-some k ks m m' e = rw (e, run_all) refl

  -- Where the valid messages end: the queue is empty, or its next message is refused.
  abbrev pub Stops : List ConsoleMessage → List ConsoleMessage → Type 0
  Stops [] left = left ≡ []
  Stops (k ∷ ks) left = (¬ IsGood k) × (left ≡ ks)

  refused_message :
      (k : ConsoleMessage) (s : Server)
      → ¬ IsGood k
      → ((receive_message now k s).0 ≡ none) × ((receive_message now k s).1.inbox ≡ s.inbox)
  unfolding receive_message
  refused_message k s h = elim (Bool-cases (k.magic == ipc_console_magic)) [
    | inr bad ↦ ground (arith, bad)
    | inl magic ↦ elim (Bool-cases (k.version == ipc_console_version)) [
      | inr bad ↦ ground (arith, magic, bad)
      | inl version ↦
          absurd (h (record { magic = ground (arith, magic); version = ground (arith, version) }))
    ]
  ]

  receive-Stops :
      (rest left : List ConsoleMessage) (s : Server)
      → s.inbox ≡ rest
      → Stops rest left
      → ((receive now s).0 ≡ none) × ((receive now s).1.inbox ≡ left)
  unfolding receive receive_from
  receive-Stops [] left s e h =
      (ap (λ q. (receive_from now s q).0) e, ap (λ q. (receive_from now s q).1.inbox) e ∙ e ∙ sym h)
  receive-Stops (k ∷ ks) left s e h =
      let refused = refused_message k (record s { inbox = ks }) h.0 in
      (
        ap (λ q. (receive_from now s q).0) e ∙ refused.0,
        ap (λ q. (receive_from now s q).1.inbox) e ∙ refused.1 ∙ sym h.1,
      )

  round_stops :
      (fuel : ℕ) (s : Server) (m : Manager)
      → (receive now s).0 ≡ none
      → receiver_loop tools (suc fuel) calls now s m ≡ some ((receive now s).1, m)
  unfolding receiver_loop
  round_stops fuel s m e = rw (e, receiver_loop) refl

  round_runs :
      (fuel : ℕ) (s s' : Server) (x : Received) (m m' : Manager)
      → receive now s ≡ (some x, s')
      → run_message tools calls now x.message m ≡ some m'
      → receiver_loop tools (suc fuel) calls now s m ≡ receiver_loop tools fuel calls now s' m'
  unfolding receiver_loop
  round_runs fuel s s' x m m' e r = ground (arith, e, r)

  -- One execution runs the texts of the valid messages at the head of the queue, in order, and no
  -- others: it stops at the first message that is refused, takes that one off the queue too, and leaves
  -- what stands behind it.
  pub receiver_loop_lem :
      (good rest left : List ConsoleMessage) (fuel : ℕ) (s : Server) (m m' : Manager)
      → s.inbox ≡ good ++ rest
      → All IsGood good
      → Stops rest left
      → length good < fuel
      → run_all good m ≡ some m'
      → (s' : Server) × (receiver_loop tools fuel calls now s m ≡ some (s', m')) × (s'.inbox ≡ left)
  receiver_loop_lem good rest left zero s m m' e g st f r = elim f [ ]
  receiver_loop_lem [] rest left (suc fuel) s m m' e g st f r =
      let (none_left, inbox) = receive-Stops rest left s e st in
      (
        (receive now s).1,
        round_stops fuel s m none_left ∙ ap (λ o. Option.map (λ x. ((receive now s).1, x)) o) r,
        inbox,
      )
  receiver_loop_lem (k ∷ good) rest left (suc fuel) s m m' e g st f r =
      elim (Option-cases (run_message tools calls now (c_string k.message) m)) [
        | inl stuck ↦ absurd (cc (run_all-none k good m stuck))
        | inr (m'', ran) ↦
            let s0 = record s { inbox = good ++ rest } in
            let (s', done, inbox) =
              receiver_loop_lem good rest left fuel (accept now k s0) m'' m' (accept-inbox now k s0)
                g.1 st (omega arith) (sym (run_all-some k good m m'' ran) ∙ r) in
            (
              s',
              round_runs fuel s (accept now k s0) _ m m''
                    (receive-good now k (good ++ rest) s e g.0) ran
                  ∙ done,
              inbox,
            )
      ]
