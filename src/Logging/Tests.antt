-- ===== src/Logging/Tests.antt =====
-- A log of three messages.
use werk.Prelude.{◌≡◌, List, [], ◌∷◌, arith}
use werk.Commands.{LogLevel}
use werk.Logging.{json, line, execute, write}
use werk.Logging.Order.{Call, formatted, raw, calls, execute-calls}

abbrev three : List Call
three =
    raw 100 LogLevel.info (b'a' ∷ [])
    ∷ formatted 101 LogLevel.json (b'{' ∷ b'}' ∷ [])
    ∷ formatted 101 LogLevel.error []
    ∷ []

execute-calls_example :
    execute (calls three (record { next_send = 7; next_receive = 7; messages = [] })) ≡ (
      line 100 7 LogLevel.info (b'a' ∷ [])
          ∷ json 101 8 (b'{' ∷ b'}' ∷ [])
          ∷ line 101 9 LogLevel.error []
          ∷ [],
      record { next_send = 10; next_receive = 10; messages = [] },
    )
unfolding write
execute-calls_example = execute-calls 7 three (omega arith)
