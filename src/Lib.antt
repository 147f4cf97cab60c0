-- ===== src/Lib.antt =====
-- Werk, a C++ library of components for real-time applications, in src/Werk of the repository.
--
-- The parts modelled, and how they interact:
--
-- - SlidingWindow (src/Werk/Utility/SlidingWindow.hpp): a window over two circular arrays, which
--   calls hooks of its implementing class. `Window` holds the members, `force_slide_one`,
--   `slide`, `sample` and `reset` are the methods, `sum_hooks` is SumSlidingWindow, and
--   Statistics is SlidingSummaryStatistics with its hooks (src/Werk/Math). `Slots` is the
--   arithmetic of the circular arrays, `Spec` the queue that a window implements.
-- - Throttle (src/Werk/Utility/Throttle.hpp): the same over one array, with `try_use_slot`.
-- - Scheduler (src/Werk/Threading/Scheduler.hpp): tasks in a multimap by due time.
--   `execute_loop` is the loop of `execute`; the multimap is in Prelude/Multimap.
-- - Timer and Watchdog (src/Werk/Threading): `execute` at a time of the clock, and whether the
--   action runs.
-- - Commands (src/Werk/Commands): the manager with its history, the built-in commands, redo and
--   aliases. `execute` is both overloads of CommandManager::execute; the line that redo passes
--   on is a reference into the history, and what it reads once the line was added there is a
--   parameter, `stale`.
-- - Console (src/Werk/Console): `Server` (receive, update), `Client` (send, the heartbeat of the
--   constructor) and `Receiver`, which passes the server's messages to the command manager of
--   Commands.
-- - Units (src/Werk/Utility/Units.cpp and Booleans.cpp): numbers with units and Booleans out of
--   text, which Config reads.
-- - Config (src/Werk/Config): `execute` is Config::execute, the reload in the background from
--   the sources of Config/Source, of which Config/Ini is IniConfigSource; `reload_configurables`
--   tells the configurables; Config/Getters has the accessors and Config/Scoped those of
--   ScopedConfig.
-- - Csv (src/Werk/Data/Csv): `move_next` is CsvParser::moveNext, with its two buffers; Csv/Line
--   splits a line.
-- - Pcap (src/Werk/Data/Pcap): `move_next` is PcapParser::moveNext over the bytes of a file;
--   Pcap/Stream is what it uses of std::ifstream.
-- - Replayer (src/Werk/Data/TimeSeriesReplayer.cpp): series in a multimap by their next times,
--   and a simulated clock. `Alone` is the same code over one series of any class, whose state
--   the main action sees.
-- - Series (src/Werk/Data/Csv/CsvTimeSeries.hpp and JitterTimeSeries.hpp): the series that a
--   replay plays, one over the parser of Csv, one over another series and random numbers.
-- - Distribution (src/Werk/Math/DiscreteDistribution.hpp): weights by value in a map.
-- - Statistics (src/Werk/Math/SummaryStatistics.hpp and OrderStatistics.hpp) and Profile
--   (src/Werk/Profiling/Profile.hpp), whose `stop` samples the order statistics of a full bin.
-- - Logging (src/Werk/Logging/AsyncLog.cpp): `log` and `log_raw` number messages and queue them,
--   `execute` writes them in the background.
-- - Context (src/Werk/Application): `Bootstrap.load_config` is the part of the constructor that
--   loads the configuration, over the operations of Config; `Startup` the one that registers the
--   commands and aliases, over the manager of Commands and Commands/Defaults; `Loop` has its
--   `run` and `shutdown`, which tell the configurables of Config and run lines of the command
--   manager of Commands; `Sources` the sources of a replay, over the files that Csv and Pcap
--   open and the jitter of Series.
-- - Actions (src/Werk/Utility/Action.hpp, Latch.hpp and Counter.hpp,
--   src/Werk/Threading/ActionQueue.hpp): `execute` is that of each class of actions,
--   `execute_queue` that of the queue of actions.
-- - Signals (src/Werk/OS/Signals.cpp): which action of Actions a signal runs; `set_up_signals`
--   is how the constructor of Context sets up SIGHUP and SIGINT.
-- - Bits (src/Werk/Utility/Bits.hpp): masks, and rounding up to a power of two.
-- - Background (src/Werk/Threading/BackgroundThread.cpp): the rounds of the background thread as
--   steps, which interleave with calls of the log of Logging and with `stop`.
--
-- Bounds and fuel: machine integers are natural numbers, with the wrap-around of uint64_t and
-- uint32_t written out (Prelude/Words). A window's `slide` takes `count` rounds, which are
-- enough since each takes one entry out; the scheduler's loop takes a fuel for which the number
-- of due runs is enough; the command manager takes fuel for calls of commands by commands, a
-- queue of actions for actions that push actions, a series as many moves as it has events, the
-- receiver's loop one round more than there are messages; and the loop over the values of a CSV
-- line as many rounds, behind the first, as the line has bytes.
--
-- Not modelled: boost's string functions and the standard library's conversions and operations
-- on doubles (parameters, `Tools`, `Conversions`, `Doubles`), the interprocess queue (a list of
-- messages, and an answer to each attempt to send), what actions do when they run (they are
-- names in a trace), the text of log entries (an entry is a value of an event type), threads,
-- the handlers of segmentation faults and bus errors, the operating system, and what else the
-- application context sets up: its logs and its watchdog.
pub mod Prelude
pub mod SlidingWindow
pub mod Throttle
pub mod Scheduler
pub mod Timer
pub mod Watchdog
pub mod Commands
pub mod Console
pub mod Units
pub mod Config
pub mod Csv
pub mod Pcap
pub mod Replayer
pub mod Statistics
pub mod Profile
pub mod Logging
pub mod Background
pub mod Series
pub mod Signals
pub mod Bits
pub mod Actions
pub mod Context
pub mod Distribution
