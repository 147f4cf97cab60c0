-- ===== src/Context.antt =====
-- src/Werk/Application/Context.{hpp,cpp}: the context that puts the components together.
pub mod Bootstrap
pub mod Loop
pub mod Startup
mod Quitting
mod Rounds
mod Run
mod Precedence
pub mod Sources
mod Opened
mod Replays
mod SourceTests
mod Tests
use werk.Prelude.{[], ◌∷◌}
use werk.Prelude.Keys.{Text}

-- The keys that are modelled.
abbrev pub config_paths_key : Text
config_paths_key =
    b'A' ∷ b'p' ∷ b'p' ∷ b'l' ∷ b'i' ∷ b'c' ∷ b'a' ∷ b't' ∷ b'i' ∷ b'o' ∷ b'n' ∷ b'.' ∷ b'C' ∷ b'o'
    ∷ b'n' ∷ b'f' ∷ b'i' ∷ b'g' ∷ b'P' ∷ b'a' ∷ b't' ∷ b'h' ∷ b's' ∷ []

abbrev pub shutdown_commands_key : Text
shutdown_commands_key =
    b'A' ∷ b'p' ∷ b'p' ∷ b'l' ∷ b'i' ∷ b'c' ∷ b'a' ∷ b't' ∷ b'i' ∷ b'o' ∷ b'n' ∷ b'.' ∷ b'S' ∷ b'h'
    ∷ b'u' ∷ b't' ∷ b'd' ∷ b'o' ∷ b'w' ∷ b'n' ∷ b'C' ∷ b'o' ∷ b'm' ∷ b'm' ∷ b'a' ∷ b'n' ∷ b'd'
    ∷ b's' ∷ []

abbrev pub alert_threshold_key : Text
alert_threshold_key =
    b'A' ∷ b'p' ∷ b'p' ∷ b'l' ∷ b'i' ∷ b'c' ∷ b'a' ∷ b't' ∷ b'i' ∷ b'o' ∷ b'n' ∷ b'.' ∷ b'L' ∷ b'o'
    ∷ b'n' ∷ b'g' ∷ b'U' ∷ b'p' ∷ b'd' ∷ b'a' ∷ b't' ∷ b'e' ∷ b'A' ∷ b'l' ∷ b'e' ∷ b'r' ∷ b't'
    ∷ b'T' ∷ b'h' ∷ b'r' ∷ b'e' ∷ b's' ∷ b'h' ∷ b'o' ∷ b'l' ∷ b'd' ∷ []

abbrev pub warning_threshold_key : Text
warning_threshold_key =
    b'A' ∷ b'p' ∷ b'p' ∷ b'l' ∷ b'i' ∷ b'c' ∷ b'a' ∷ b't' ∷ b'i' ∷ b'o' ∷ b'n' ∷ b'.' ∷ b'L' ∷ b'o'
    ∷ b'n' ∷ b'g' ∷ b'U' ∷ b'p' ∷ b'd' ∷ b'a' ∷ b't' ∷ b'e' ∷ b'W' ∷ b'a' ∷ b'r' ∷ b'n' ∷ b'i'
    ∷ b'n' ∷ b'g' ∷ b'T' ∷ b'h' ∷ b'r' ∷ b'e' ∷ b's' ∷ b'h' ∷ b'o' ∷ b'l' ∷ b'd' ∷ []

abbrev pub error_threshold_key : Text
error_threshold_key =
    b'A' ∷ b'p' ∷ b'p' ∷ b'l' ∷ b'i' ∷ b'c' ∷ b'a' ∷ b't' ∷ b'i' ∷ b'o' ∷ b'n' ∷ b'.' ∷ b'L' ∷ b'o'
    ∷ b'n' ∷ b'g' ∷ b'U' ∷ b'p' ∷ b'd' ∷ b'a' ∷ b't' ∷ b'e' ∷ b'E' ∷ b'r' ∷ b'r' ∷ b'o' ∷ b'r'
    ∷ b'T' ∷ b'h' ∷ b'r' ∷ b'e' ∷ b's' ∷ b'h' ∷ b'o' ∷ b'l' ∷ b'd' ∷ []

abbrev pub critical_threshold_key : Text
critical_threshold_key =
    b'A' ∷ b'p' ∷ b'p' ∷ b'l' ∷ b'i' ∷ b'c' ∷ b'a' ∷ b't' ∷ b'i' ∷ b'o' ∷ b'n' ∷ b'.' ∷ b'L' ∷ b'o'
    ∷ b'n' ∷ b'g' ∷ b'U' ∷ b'p' ∷ b'd' ∷ b'a' ∷ b't' ∷ b'e' ∷ b'C' ∷ b'r' ∷ b'i' ∷ b't' ∷ b'i'
    ∷ b'c' ∷ b'a' ∷ b'l' ∷ b'T' ∷ b'h' ∷ b'r' ∷ b'e' ∷ b's' ∷ b'h' ∷ b'o' ∷ b'l' ∷ b'd' ∷ []

abbrev pub command_aliases_key : Text
command_aliases_key =
    b'A' ∷ b'p' ∷ b'p' ∷ b'l' ∷ b'i' ∷ b'c' ∷ b'a' ∷ b't' ∷ b'i' ∷ b'o' ∷ b'n' ∷ b'.' ∷ b'C' ∷ b'o'
    ∷ b'm' ∷ b'm' ∷ b'a' ∷ b'n' ∷ b'd' ∷ b'A' ∷ b'l' ∷ b'i' ∷ b'a' ∷ b's' ∷ b'e' ∷ b's' ∷ []

abbrev pub startup_commands_key : Text
startup_commands_key =
    b'A' ∷ b'p' ∷ b'p' ∷ b'l' ∷ b'i' ∷ b'c' ∷ b'a' ∷ b't' ∷ b'i' ∷ b'o' ∷ b'n' ∷ b'.' ∷ b'S' ∷ b't'
    ∷ b'a' ∷ b'r' ∷ b't' ∷ b'u' ∷ b'p' ∷ b'C' ∷ b'o' ∷ b'm' ∷ b'm' ∷ b'a' ∷ b'n' ∷ b'd' ∷ b's' ∷ []

abbrev pub jitter_min_key : Text
jitter_min_key =
    b'A' ∷ b'p' ∷ b'p' ∷ b'l' ∷ b'i' ∷ b'c' ∷ b'a' ∷ b't' ∷ b'i' ∷ b'o' ∷ b'n' ∷ b'.' ∷ b'H' ∷ b'i'
    ∷ b's' ∷ b't' ∷ b'o' ∷ b'r' ∷ b'i' ∷ b'c' ∷ b'a' ∷ b'l' ∷ b'D' ∷ b'a' ∷ b't' ∷ b'a' ∷ b'J'
    ∷ b'i' ∷ b't' ∷ b't' ∷ b'e' ∷ b'r' ∷ b'M' ∷ b'i' ∷ b'n' ∷ []

abbrev pub jitter_max_key : Text
jitter_max_key =
    b'A' ∷ b'p' ∷ b'p' ∷ b'l' ∷ b'i' ∷ b'c' ∷ b'a' ∷ b't' ∷ b'i' ∷ b'o' ∷ b'n' ∷ b'.' ∷ b'H' ∷ b'i'
    ∷ b's' ∷ b't' ∷ b'o' ∷ b'r' ∷ b'i' ∷ b'c' ∷ b'a' ∷ b'l' ∷ b'D' ∷ b'a' ∷ b't' ∷ b'a' ∷ b'J'
    ∷ b'i' ∷ b't' ∷ b't' ∷ b'e' ∷ b'r' ∷ b'M' ∷ b'a' ∷ b'x' ∷ []

abbrev pub data_sources_key : Text
data_sources_key =
    b'A' ∷ b'p' ∷ b'p' ∷ b'l' ∷ b'i' ∷ b'c' ∷ b'a' ∷ b't' ∷ b'i' ∷ b'o' ∷ b'n' ∷ b'.' ∷ b'H' ∷ b'i'
    ∷ b's' ∷ b't' ∷ b'o' ∷ b'r' ∷ b'i' ∷ b'c' ∷ b'a' ∷ b'l' ∷ b'D' ∷ b'a' ∷ b't' ∷ b'a' ∷ b'S'
    ∷ b'o' ∷ b'u' ∷ b'r' ∷ b'c' ∷ b'e' ∷ b's' ∷ []
