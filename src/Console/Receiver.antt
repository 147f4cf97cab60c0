-- ===== src/Console/Receiver.antt =====
-- src/Werk/Console/ConsoleCommandReceiver.hpp: the messages of a server run as command lines.
pub mod Drain
use werk.Prelude.{ℕ, zero, suc, [], ◌∷◌, Option, none, some}
use werk.Prelude.Keys.{Text}
use werk.Commands.{Tools, Manager, Call, line, execute}
use werk.Console.Server.{Server, Received, receive}

module _ (tools : Tools) where
  -- A heartbeat has no text and is skipped; what `execute` returns is not used. `calls` is the fuel of
  -- the command manager.
  unfoldable pub run_message : ℕ → ℕ → Text → Manager → Option Manager
  run_message calls now [] m = some m
  run_message calls now (c ∷ text) m = elim (execute tools calls now (line (c ∷ text)) m) [
    | none ↦ none
    | some (r, m') ↦ some m'
  ]

  -- The loop of `ConsoleCommandReceiver::execute`, with fuel for the rounds and for the manager;
  -- `none` means that one of them ran out.
  unfoldable pub receiver_loop : ℕ → ℕ → ℕ → Server → Manager → Option (Server × Manager)
  unfolding run_message
  receiver_loop zero calls now s m = none
  receiver_loop (suc fuel) calls now s m = elim (receive now s).0 [
    | none ↦ some ((receive now s).1, m)
    | some r ↦ elim (run_message calls now r.message m) [
      | none ↦ none
      | some m' ↦ receiver_loop fuel calls now (receive now s).1 m'
    ]
  ]
