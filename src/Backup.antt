-- ===== src/Backup.antt =====
-- backup/log.h and backup/log.cpp: an earlier version of the logging module, without locks, roots
-- and YAML. Its enumeration of levels, its events and its table of items are those of src/_log.
pub mod Pattern
pub mod Formatter
pub mod Same
pub mod Consoles
use simple_http_server.Base.{
  ℕ, ◌+◌, Bool, true, false, not, List, [], ◌∷◌, ◌++◌, Option, none, some, if◌then◌else◌, ◌==◌,
  update,
}
use simple_http_server.Base.Bytes.{Bytes, codes, same}
use simple_http_server.Log.Level.{
  LogLevel, debug, info, warn, error, fatal, level_le, unknow, to_string,
}
use simple_http_server.Base.Int.{ℤ}
use simple_http_server.Log.Event.{LogEvent}
use simple_http_server.Log.Event
use simple_http_server.Log.Formatter.{LogFormatter}
use simple_http_server.Log.Appender.{
  World, Stream, AppenderKind, stdout, file, print_line, put, close_stream, new_stream,
}
use simple_http_server.Log.Logger.{erase_first}
use simple_http_server.Backup.Formatter.{format}

-- `LogEvent::LogEvent`
abbrev pub new_event : ℕ → LogLevel → Bytes → ℤ → ℕ → ℕ → ℕ → ℕ → Bytes → LogEvent
new_event = Event.new_event

-- `LogLevelHelper`; a text that is no level's throws.
abbrev pub level_to_text : LogLevel → Bytes
level_to_text = to_string

unfoldable pub level_of_text : Bytes → Option LogLevel
level_of_text s =
    if same s (codes "UNKNOW")
    then some unknow
    else if same s (codes "DEBUG")
    then some debug
    else if same s (codes "INFO")
    then some info
    else if same s (codes "WARN")
    then some warn
    else if same s (codes "ERROR")
    then some error
    else if same s (codes "FATAL")
    then some fatal
    else none

-- `m_formatter` may be null.
pub record LogAppender : Type 0 where
  pub kind : AppenderKind
  pub level : LogLevel
  pub formatter : Option LogFormatter
  pub stream : Stream

pub record Logger : Type 0 where
  pub name : Bytes
  pub level : LogLevel
  pub appenders : List ℕ

pub record Heap : Type 0 where
  pub logger : ℕ → Logger
  pub appender : ℕ → LogAppender
  pub world : World

-- The constructor leaves the level as the memory has it.
unfoldable pub new_logger : LogLevel → Bytes → Logger
new_logger garbage name = record { name = name; level = garbage; appenders = [] }

-- The constructors of both appenders: the file is not opened.
unfoldable pub new_appender : AppenderKind → LogAppender
new_appender kind = record { kind = kind; level = debug; formatter = none; stream = new_stream }

unfoldable pub set_formatter : LogAppender → Option LogFormatter → LogAppender
set_formatter a f = record a { formatter = f }

unfoldable pub set_appender_level : LogAppender → LogLevel → LogAppender
set_appender_level a level = record a { level = level }

abbrev pub store_logger : Heap → ℕ → Logger → Heap
store_logger h p l = record h { logger = update h.logger p l }

unfoldable pub set_level : Heap → ℕ → LogLevel → Heap
set_level h p level = store_logger h p (record (h.logger p) { level = level })

unfoldable pub add_appender : Heap → ℕ → ℕ → Heap
add_appender h p a =
    store_logger h p (record (h.logger p) { appenders = (h.logger p).appenders ++ a ∷ [] })

unfoldable pub del_appender : Heap → ℕ → ℕ → Heap
unfolding erase_first
del_appender h p a =
    store_logger h p (record (h.logger p) { appenders = erase_first a (h.logger p).appenders })

-- `m_filestream.open(m_filename)`: the file is cut to nothing if it can be opened.
unfoldable pub open_cutting : World → Bytes → Stream → Stream × World
open_cutting w name s =
    let cut = record w { files = λ other. if same name other then [] else w.files other } in
    if s.is_open
    then (record s { fail = true }, w)
    else if w.can_open name
    then (record { is_open = true; fail = false }, cut)
    else (record s { fail = true }, w)

-- `FileLogAppender::reopen`
unfoldable pub reopen : World → Bytes → LogAppender → LogAppender × World × Bool
unfolding open_cutting close_stream
reopen w name a =
    let closed = if not a.stream.fail then close_stream a.stream else a.stream in
    let (s, w') = open_cutting w name closed in (record a { stream = s }, w', not s.fail)

-- The write of both `log` functions, where `line` is what the formatter gives.
unfoldable pub write : AppenderKind → World → LogAppender → Bytes → LogAppender × World
unfolding put
write stdout w a line = (a, print_line w line)
write (file name) w a line =
    let (s, w') = put w name a.stream (line ++ b'\n' ∷ []) in (record a { stream = s }, w')

-- The virtual `LogAppender::log`; `none` is a call on a null formatter.
unfoldable pub log_appender :
    World → LogAppender → Bytes → LogLevel → LogEvent → Option (LogAppender × World)
unfolding write
log_appender w a logger level event =
    if level_le a.level level
    then elim a.formatter [
      | none ↦ none
      | some f ↦ some (write a.kind w a (format f logger level event))
    ]
    else some (a, w)

unfoldable pub log_each : Heap → List ℕ → Bytes → LogLevel → LogEvent → Option Heap
unfolding log_appender
log_each h [] name level event = some h
log_each h (a ∷ rest) name level event =
    elim (log_appender h.world (h.appender a) name level event) [
      | none ↦ none
      | some (x, w) ↦
          log_each (record h { appender = update h.appender a x; world = w }) rest name level event
    ]

-- `Logger::log`
unfoldable pub log : Heap → ℕ → LogLevel → LogEvent → Option Heap
unfolding log_each
log h p level event =
    let l = h.logger p in
    if level_le l.level level then log_each h l.appenders l.name level event else some h

-- `debug`, `info`, `warn`, `error` and `fatal`.
abbrev pub log_debug : Heap → ℕ → LogEvent → Option Heap
log_debug h p event = log h p debug event

abbrev pub log_info : Heap → ℕ → LogEvent → Option Heap
log_info h p event = log h p info event

abbrev pub log_warn : Heap → ℕ → LogEvent → Option Heap
log_warn h p event = log h p warn event

abbrev pub log_error : Heap → ℕ → LogEvent → Option Heap
log_error h p event = log h p error event

abbrev pub log_fatal : Heap → ℕ → LogEvent → Option Heap
log_fatal h p event = log h p fatal event
