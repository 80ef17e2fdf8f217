-- ===== src/Log/Logger.antt =====
-- src/_log/Logger.h and `Logger` of src/_log/log.cpp. Loggers and appenders are shared, so they
-- stand in a heap and are named by address; an address below the heap's bound is allocated.
use simple_http_server.Base.{
  update, ℕ, zero, suc, ◌+◌, List, [], ◌∷◌, ◌++◌, Option, none, some, if◌then◌else◌, ◌==◌, is_empty,
}
use simple_http_server.Base.Bytes.{Bytes, codes}
use simple_http_server.Base.Int.{ℤ}
use simple_http_server.Log.Level.{LogLevel, debug, info, warn, error, fatal, level_le}
use simple_http_server.Log.Event.{LogEvent, format_text, new_event, stream_text}
use simple_http_server.Log.Formatter.{Calendar}
use simple_http_server.Log.Appender.{World, LogAppender, log_appender}

pub record Logger : Type 0 where
  pub name : Bytes
  pub level : LogLevel
  pub appenders : List ℕ
  pub root : Option ℕ

pub record Heap : Type 0 where
  pub logger : ℕ → Logger
  pub next_logger : ℕ
  pub appender : ℕ → LogAppender
  pub next_appender : ℕ
  pub world : World

abbrev pub store_logger : Heap → ℕ → Logger → Heap
store_logger h p l = record h { logger = update h.logger p l }

abbrev pub store_appender : Heap → ℕ → LogAppender → Heap
store_appender h p a = record h { appender = update h.appender p a }

-- The constructor.
abbrev pub new_logger : Bytes → Logger
new_logger name = record { name = name; level = debug; appenders = []; root = none }

abbrev pub alloc_logger : Heap → Logger → Heap
alloc_logger h l = record h {
  logger = update h.logger h.next_logger l;
  next_logger = h.next_logger + 1;
}

abbrev pub alloc_appender : Heap → LogAppender → Heap
alloc_appender h a = record h {
  appender = update h.appender h.next_appender a;
  next_appender = h.next_appender + 1;
}

unfoldable pub set_level : Heap → ℕ → LogLevel → Heap
set_level h p level = store_logger h p (record (h.logger p) { level = level })

unfoldable pub set_root : Heap → ℕ → ℕ → Heap
set_root h p root = store_logger h p (record (h.logger p) { root = some root })

unfoldable pub clear_appenders : Heap → ℕ → Heap
clear_appenders h p = store_logger h p (record (h.logger p) { appenders = [] })

unfoldable pub add_appender : Heap → ℕ → ℕ → Heap
add_appender h p a =
    store_logger h p (record (h.logger p) { appenders = (h.logger p).appenders ++ a ∷ [] })

-- The loop of `delAppender`: the first entry that is the same pointer goes.
unfoldable pub erase_first : ℕ → List ℕ → List ℕ
erase_first a [] = []
erase_first a (x ∷ xs) = if x == a then xs else x ∷ erase_first a xs

unfoldable pub del_appender : Heap → ℕ → ℕ → Heap
unfolding erase_first
del_appender h p a =
    store_logger h p (record (h.logger p) { appenders = erase_first a (h.logger p).appenders })

-- Where and when a message is logged: what the macros read around the call.
pub record Site : Type 0 where
  pub file : Bytes
  pub line : ℤ
  pub thread_id : ℕ
  pub fiber_id : ℕ
  pub time : ℕ
  pub thread_name : Bytes

abbrev pub site_event : ℕ → LogLevel → Site → LogEvent
site_event p level s = new_event p level s.file s.line 0 s.thread_id s.fiber_id s.time s.thread_name

module _ (cal : Calendar) where
  abbrev pub log_at : Heap → ℕ → Bytes → LogLevel → LogEvent → Heap
  log_at h a name level event =
      let (a', w) = log_appender cal h.world (h.appender a) name level event in
      record h { appender = update h.appender a a'; world = w }

  -- `for (auto& a : m_appenders) a->log(self, level, event);`
  unfoldable pub log_each : Heap → List ℕ → Bytes → LogLevel → LogEvent → Heap
  log_each h [] name level event = h
  log_each h (a ∷ rest) name level event =
      log_each (log_at h a name level event) rest name level event

  -- The two branches below the level test, given the call of the root logger's `log`.
  unfoldable pub log_or_root : Heap → Logger → Option Heap → LogLevel → LogEvent → Option Heap
  log_or_root h l at_root level event =
      if is_empty l.appenders then at_root else some (log_each h l.appenders l.name level event)

  -- `Logger::log`, with fuel for the calls up the chain of roots; `none` is a call that never
  -- comes back.
  unfoldable pub log : ℕ → Heap → ℕ → LogLevel → LogEvent → Option Heap
  log zero h p level event = none
  log (suc fuel) h p level event =
      let at_root : Option Heap = elim (h.logger p).root [
        | none ↦ some h
        | some r ↦ log fuel h r level event
      ] in
      if level_le (h.logger p).level level
      then log_or_root h (h.logger p) at_root level event
      else some h

  -- `debug`, `info`, `warn`, `error` and `fatal`.
  abbrev pub log_debug : ℕ → Heap → ℕ → LogEvent → Option Heap
  log_debug fuel h p event = log fuel h p debug event

  abbrev pub log_info : ℕ → Heap → ℕ → LogEvent → Option Heap
  log_info fuel h p event = log fuel h p info event

  abbrev pub log_warn : ℕ → Heap → ℕ → LogEvent → Option Heap
  log_warn fuel h p event = log fuel h p warn event

  abbrev pub log_error : ℕ → Heap → ℕ → LogEvent → Option Heap
  log_error fuel h p event = log fuel h p error event

  abbrev pub log_fatal : ℕ → Heap → ℕ → LogEvent → Option Heap
  log_fatal fuel h p event = log fuel h p fatal event

  -- `~LogEventWrap`: the event goes to its own logger at its own level.
  abbrev pub log_event : ℕ → Heap → LogEvent → Option Heap
  log_event fuel h event = log fuel h event.logger event.level event

  -- `SHS_LOG_LEVEL(logger, level) << text`: below the logger's level nothing is made; otherwise
  -- an event of this place is filled and logged.
  unfoldable pub log_stream : ℕ → Heap → ℕ → LogLevel → Site → Bytes → Option Heap
  log_stream fuel h p level site text =
      if level_le (h.logger p).level level
      then log_event fuel h (stream_text (site_event p level site) text)
      else some h

  -- `SHS_LOG_FMT_LEVEL(logger, level, fmt, …)`, given what `vsnprintf` makes of the format: the
  -- event has a fixed text for the name of the thread.
  unfoldable pub log_fmt : ℕ → Heap → ℕ → LogLevel → Site → Option Bytes → Option Heap
  unfolding format_text
  log_fmt fuel h p level site text =
      let here : Site = record site { thread_name = codes "shs::Thread::GetName" } in
      if level_le (h.logger p).level level
      then log_event fuel h (format_text (site_event p level here) text)
      else some h
