-- ===== src/Lib.antt =====
-- A verification of simple_http_server, a C++ server library, by models of its modules and proofs
-- about them. Paths are from the repository's root.
--
-- The parts and how they interact. Loggers send events to appenders, which format them by patterns
-- and write them to the console or to files; a registry hands the loggers out by name. The
-- configuration is a registry of typed variables with listeners, filled from YAML documents; the
-- listener of the variable "logs" sets the loggers up. Fibers share a thread by switching contexts;
-- the scheduler's threads take fibers and functions from one queue. Threads and
-- mutexes wrap those of the system. The HTTP server stands by itself, over asio.
--
-- Which file models what (a file's children prove what it does):
--   Log/Level      src/_log/LogLevel.h: `from_string` and `to_string` of `LogLevelHelper`
--   Log/Event      src/_log/LogEvent.h, `LogEvent` of src/_log/log.cpp
--   Log/Pattern    `LogFormatter::init` of src/_log/log.cpp up to its vector of pieces: `tokenize`
--   Log/Formatter  the rest of `init` (`new_formatter`), the format items, `LogFormatter::format`
--   Log/Appender   src/_log/LogAppender.h and both appenders of src/_log/log.cpp: `log_stdout`,
--                  `log_file` with `reopen`; the stream is its open and fail flags
--   Log/Logger     src/_log/Logger.h and `Logger` of src/_log/log.cpp over a heap of loggers and
--                  appenders, and the stream macros of src/_log/macro.h: `log_stream`
--   Log/Manager    `LoggerManager`: `new_manager`, `get_root`, `get_logger`
--   Log/Define     `LogDefine`, `LogAppenderDefine` and the listener of `LogIniter`:
--                  `on_logger_conf_changed`; Log/Define/Text is the YAML form, `define_of_text` and
--                  `text_of_define`
--   Log/Dump       `toYamlNode` and `toYamlString` of appenders, loggers and `LoggerManager`
--   Log/Initer     the variable "logs" with its conversions and `LogIniter`: `from_string` of a text
--                  ends in `on_logger_conf_changed`; Log/Initer/Output goes on to what is written
--   Config/Cast      `Lexical_cast` of src/config/config.h between text and the containers of the
--                  standard library
--   Config/Var       `ConfigVar` of src/config/config.h: value, listeners, conversions
--   Config/Registry  `Config::Lookup` in both forms (`lookup_or_new`, `lookup`), `LookupBase`, `Visit`
--   Config/Yaml      src/config/config.cpp: `ListAllMember` and `LoadFromYaml`
--   Fiber          src/fiber: one definition per member function, `main_func_end` and
--                  `caller_main_func_end` for what `MainFunc` and `CallerMainFunc` do behind `m_cb()`
--   Scheduler      src/scheduler: the queue and the branches of `Scheduler::run`; Scheduler/Run is
--                  the loop, Scheduler/Control the constructor, `start`, `stop` and `switchTo`,
--                  Scheduler/Range the scheduling of ranges, Scheduler/Root the root fiber,
--                  `root_run`, and Scheduler/Named the names of the threads
--   Mutex          src/mutex: the mutexes over pthread and the scoped locks; Mutex/Cas is `CASLock`
--                  with its threads' steps in any order
--   Locks          the scoped locks of calls into src/_log, src/config and src/scheduler, one after
--                  the other: `log_locks` for `Logger::log`, `set_value_locks` for `setValue` and so
--                  on; Locks/Calls lets threads make such calls
--   Thread         src/thread: `new_thread`, `run`, `join`, `destroy`, `set_name` over pthread, and
--                  the first four on Windows in Thread/Windows; Thread/Posix is src/thread_posix
--   Http           src/server.cpp and src/main.cpp: `on_accept` is the handler that
--                  `accept_connection` gives to asio, `handle_request` answers one connection, `run`
--                  is the event loop of `main`
--   Util           src/util/util.cpp but for `safe_localtime`, which stands in Log/Formatter, and
--                  src/macro.h: `backtrace_to_string`, `assert_text`
--   Backup         backup/log.h and backup/log.cpp, an earlier version of src/_log that is not built
--
-- Conventions. A byte string is a list of numbers; `std::map` is an association list in key order;
-- objects that are shared stand in a heap, a function of addresses. Counters that wrap around do so
-- by `% 2 ^ 64`. What is not in the repository is an argument: `Calendar` for localtime_r and
-- strftime, `World` for files and the console, `Yaml`, `YamlText` and `YamlList` for documents, the
-- records `Posix…` and the codes given to operations of threads for pthread and semaphores, `Peer`
-- and `Completion` for how the calls of asio come back,
-- `Setting` and `Element` for the conversions and the equality of a variable's type, `VarClass` for
-- the virtual functions of variables, and `resume` for what a fiber's function does between a
-- switch into it and the switch back. An assertion that fails ends the program, as it does without
-- NDEBUG.
--
-- Loops are by recursion on their data, but for three, which have fuel. `Logger::log` calls the root
-- logger: in a registry that the program can make, fuel 2 is enough, since the root has no root.
-- `ListAllMember` goes down a document: fuel above its depth is enough. The loop of
-- `Scheduler::run` ends after one turn for each waiting fiber and two more, if the fibers end, be it
-- in a thread of the scheduler's own or in the root fiber that `stop` calls.
--
-- Not modelled: the waiting for mutexes together with what is done under them: in Locks a call is
-- its locks alone, and elsewhere an operation under a lock is one step; the memory orders of atomic
-- flags; what the pattern parser and `Lookup` print; the buffer of a file stream: a text counts as
-- in the file at once, and a write that the system refuses fails at once, as it does when the text
-- has a flush in it; appenders whose formatter has been set to the null pointer; the exceptions of
-- the YAML library for subscripts of a scalar; the destruction of the idle fiber and of the fiber
-- for functions behind `Scheduler::run`; failures of getcontext and swapcontext, and the memory of
-- stacks; and the functions of src/util that only ask the platform for a number or a name. Names of
-- threads are taken to hold no NUL byte.
mod Base
pub mod Log
pub mod Config
pub mod Fiber
pub mod Scheduler
pub mod Mutex
pub mod Locks
pub mod Thread
pub mod Http
pub mod Util
pub mod Backup
mod Tests
