-- ===== src/Console/Message.antt =====
-- src/Werk/Console/ConsoleMessage.hpp, and the C strings in a message.
use werk.Prelude.{ℕ, zero, suc, [], ◌∷◌, if◌then◌else◌, ◌==◌}
use werk.Prelude.Keys.{Text}

abbrev pub ipc_console_magic : ℕ
ipc_console_magic = 0xbadf00d5

abbrev pub ipc_console_version : ℕ
ipc_console_version = 2

-- `sizeof(consoleMessage.message)`
abbrev pub message_size : ℕ
message_size = 252

pub record ConsoleMessage : Type 0 where
  pub magic : ℕ
  pub version : ℕ
  pub client_pid : ℕ
  pub time : ℕ
  pub sequence_number : ℕ
  pub message : Text

-- A `std::string` from a `char` array: the bytes before the first 0. Where there is none, which no
-- client sends, the source would read past the array; here the text ends with it.
abbrev pub c_string : Text → Text
c_string [] = []
c_string (c ∷ cs) = if c == 0 then [] else c ∷ c_string cs

-- `strncpy` into `n` bytes: what fits of the text, then zeros.
abbrev pub strncpy : ℕ → Text → Text
strncpy zero cs = []
strncpy (suc n) [] = 0 ∷ strncpy n []
strncpy (suc n) (c ∷ cs) = c ∷ strncpy n cs
