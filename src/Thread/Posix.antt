-- ===== src/Thread/Posix.antt =====
-- src/thread_posix: `Thread_posix`, whose code is that of `Thread` over pthread, with thread-local
-- variables of its own. A program may have threads of both classes.
use simple_http_server.Base.{ℕ, Option}
use simple_http_server.Base.Bytes.{Bytes}
use simple_http_server.Mutex.{Attempt, done, failed}
use simple_http_server.Thread.{System, get_this, get_name, set_name, new_thread, run, join, destroy}

-- The objects and the variables of `Thread`, and those of `Thread_posix`.
pub record Both : Type 0 where
  pub plain : System
  pub posix : System

abbrev pub get_this_posix : Both → ℕ → Option ℕ
get_this_posix b t = get_this b.posix t

abbrev pub get_name_posix : Both → ℕ → Bytes
get_name_posix b t = get_name b.posix t

unfoldable pub set_name_posix : Both → ℕ → Bytes → Both
set_name_posix b t name = record b { posix = set_name b.posix t name }

-- A call on a `Thread_posix`.
abbrev pub called : Both → Attempt System System → Attempt Both Both
called b (done s) = done (record b { posix = s })
called b (failed s) = failed (record b { posix = s })

unfoldable pub new_thread_posix : Both → ℕ → Option ℕ → Bytes → ℕ → ℕ → Attempt Both Both
new_thread_posix b p cb name code handle = called b (new_thread b.posix p cb name code handle)

unfoldable pub run_posix : Both → ℕ → ℕ → Both × Option ℕ
run_posix b t p = let (s, cb) = run b.posix t p in (record b { posix = s }, cb)

unfoldable pub join_posix : Both → ℕ → ℕ → Attempt Both Both
join_posix b p code = called b (join b.posix p code)

unfoldable pub destroy_posix : Both → ℕ → Both
destroy_posix b p = record b { posix = destroy b.posix p }

-- The thread's name that the macros SHS_LOG_LEVEL give to an event.
abbrev pub event_thread_name : Both → ℕ → Bytes
event_thread_name b t = get_name_posix b t
