-- ===== src/Log/Appender.antt =====
-- src/_log/LogAppender.h, and the appenders of src/_log/log.cpp. A file appender writes through
-- an `ofstream`, which is modelled by whether its file is open and whether it has failed. It has
-- no buffer here: what is written counts as in the file at once, and what cannot be written fails
-- at once, as it does in the code when a `%n` flushes the stream.
pub mod Streams
pub mod Written
pub mod Recovery
use simple_http_server.Base.{
  ℕ, ◌+◌, ◌%◌, ◌^◌, Bool, true, false, not, ◌||◌, [], ◌∷◌, ◌++◌, if◌then◌else◌, leb, is_empty,
}
use simple_http_server.Base.Bytes.{Bytes, codes, same}
use simple_http_server.Log.Level.{LogLevel, debug, level_le}
use simple_http_server.Log.Event.{LogEvent}
use simple_http_server.Log.Formatter.{
  Calendar, LogFormatter, new_formatter, default_pattern, format,
}

-- The console, the contents of the files, and what the operating system allows just now.
pub record World : Type 0 where
  pub console : Bytes
  pub files : Bytes → Bytes
  pub can_open : Bytes → Bool
  pub can_write : Bytes → Bool

-- `std::ofstream`: `is_open()` and `fail()`.
pub record Stream : Type 0 where
  pub is_open : Bool
  pub fail : Bool

pub data AppenderKind : Type 0 where
  stdout : AppenderKind
  file : Bytes → AppenderKind

-- `StdoutLogAppender` and `FileLogAppender`; the last two fields are the latter's.
pub record LogAppender : Type 0 where
  pub kind : AppenderKind
  pub level : LogLevel
  pub formatter : LogFormatter
  pub stream : Stream
  pub last_time : ℕ

-- `m_filestream.close()`: a failure if no file is open.
unfoldable pub close_stream : Stream → Stream
close_stream s = if s.is_open then record s { is_open = false } else record s { fail = true }

-- `m_filestream.open(name, std::ios::app)`: a failure if a file is open already.
unfoldable pub open_stream : World → Bytes → Stream → Stream
open_stream w name s =
    if s.is_open
    then record s { fail = true }
    else if w.can_open name
    then record { is_open = true; fail = false }
    else record s { fail = true }

-- `FileLogAppender::reopen`, on the stream.
unfoldable pub reopen_stream : World → Bytes → Stream → Stream × Bool
unfolding close_stream open_stream
reopen_stream w name s =
    let closed = if not s.fail then close_stream s else s in
    let opened = open_stream w name closed in (opened, not opened.fail)

unfoldable pub reopen : World → Bytes → LogAppender → LogAppender × Bool
unfolding reopen_stream
reopen w name a = let (s, good) = reopen_stream w name a.stream in (record a { stream = s }, good)

abbrev pub new_stream : Stream
new_stream = record { is_open = false; fail = false }

pub new_appender : AppenderKind → LogAppender
new_appender kind = record {
  kind = kind;
  level = debug;
  formatter = new_formatter default_pattern;
  stream = new_stream;
  last_time = 0;
}

abbrev pub new_stdout_appender : LogAppender
new_stdout_appender = new_appender stdout

unfoldable pub new_file_appender : World → Bytes → LogAppender
unfolding reopen new_appender
new_file_appender w name = (reopen w name (new_appender (file name))).0

unfoldable pub set_level : LogAppender → LogLevel → LogAppender
set_level a l = record a { level = l }

unfoldable pub set_formatter : LogAppender → LogFormatter → LogAppender
set_formatter a f = record a { formatter = f }

abbrev pub print_line : World → Bytes → World
print_line w line = record w { console = w.console ++ (line ++ b'\n' ∷ []) }

abbrev pub append_file : World → Bytes → Bytes → World
append_file w name added = record w {
  files = λ other. if same name other then w.files other ++ added else w.files other;
}

-- `m_filestream << text`
unfoldable pub put : World → Bytes → Stream → Bytes → Stream × World
put w name s added =
    if s.fail || is_empty added
    then (s, w)
    else if s.is_open
    then (if w.can_write name then (s, append_file w name added) else (record s { fail = true }, w))
    else (record s { fail = true }, w)

-- `now >= m_lastTime + 3`, on `uint64_t`.
abbrev pub is_due : ℕ → ℕ → Bool
is_due last now = leb ((last + 3) % 2 ^ 64) now

abbrev pub refresh : World → Bytes → LogAppender → ℕ → LogAppender
refresh w name a now =
    if is_due a.last_time now then record (reopen w name a).0 { last_time = now } else a

-- The write, and the message when the stream has failed behind it.
unfoldable pub write_file : World → Bytes → LogAppender → Bytes → LogAppender × World
unfolding put
write_file w name a added =
    let (s, w') = put w name a.stream added in
    (record a { stream = s }, if s.fail then print_line w' (codes "error") else w')

module _ (cal : Calendar) where
  unfoldable pub log_stdout :
      World → LogAppender → Bytes → LogLevel → LogEvent → LogAppender × World
  log_stdout w a logger level event =
      if level_le a.level level
      then (a, print_line w (format cal a.formatter logger level event))
      else (a, w)

  unfoldable pub log_file :
      World → Bytes → LogAppender → Bytes → LogLevel → LogEvent → LogAppender × World
  log_file w name a logger level event =
      if level_le a.level level
      then write_file w name (refresh w name a event.time)
          (format cal a.formatter logger level event)
      else (a, w)

  -- The virtual `LogAppender::log`.
  unfoldable pub log_kind :
      AppenderKind → World → LogAppender → Bytes → LogLevel → LogEvent → LogAppender × World
  unfolding log_stdout log_file write_file reopen level_le format
  log_kind stdout w a logger level event = log_stdout w a logger level event
  log_kind (file name) w a logger level event = log_file w name a logger level event

  abbrev pub log_appender : World → LogAppender → Bytes → LogLevel → LogEvent → LogAppender × World
  log_appender w a = log_kind a.kind w a
