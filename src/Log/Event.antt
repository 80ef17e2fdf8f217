-- ===== src/Log/Event.antt =====
-- src/_log/LogEvent.h, and `LogEvent` and `LogEventWrap` of src/_log/log.cpp: one log message.
use simple_http_server.Base.{ℕ, ◌++◌, [], Option, none, some}
use simple_http_server.Base.Bytes.{Bytes}
use simple_http_server.Base.Int.{ℤ}
use simple_http_server.Log.Level.{LogLevel}

-- `logger` is a pointer into the heap of loggers, `content` the text of the stream `m_ss`.
pub record LogEvent : Type 0 where
  pub file : Bytes
  pub line : ℤ
  pub elapse : ℕ
  pub thread_id : ℕ
  pub fiber_id : ℕ
  pub time : ℕ
  pub thread_name : Bytes
  pub content : Bytes
  pub logger : ℕ
  pub level : LogLevel

unfoldable pub new_event : ℕ → LogLevel → Bytes → ℤ → ℕ → ℕ → ℕ → ℕ → Bytes → LogEvent
new_event logger level file line elapse thread_id fiber_id time thread_name = record {
  file = file;
  line = line;
  elapse = elapse;
  thread_id = thread_id;
  fiber_id = fiber_id;
  time = time;
  thread_name = thread_name;
  content = [];
  logger = logger;
  level = level;
}

-- `getSS() << text`
unfoldable pub stream_text : LogEvent → Bytes → LogEvent
stream_text e text = record e { content = e.content ++ text }

-- `LogEvent::format`, given what `vsnprintf` makes of the format and its arguments: nothing if it
-- reports an error.
unfoldable pub format_text : LogEvent → Option Bytes → LogEvent
unfolding stream_text
format_text e none = e
format_text e (some text) = stream_text e text
