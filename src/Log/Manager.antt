-- ===== src/Log/Manager.antt =====
-- src/_log/LoggerManager.h and `LoggerManager` of src/_log/log.cpp.
pub mod Invariant
pub mod Routing
use simple_http_server.Base.{ℕ, ◌+◌, Option, none, some, [], ◌∷◌}
use simple_http_server.Base.Bytes.{Bytes, codes}
use simple_http_server.Base.Dict.{Dict, find, assign}
use simple_http_server.Log.Appender.{World, LogAppender, new_stdout_appender}
use simple_http_server.Log.Logger.{
  Logger, Heap, new_logger, alloc_logger, alloc_appender, add_appender, set_root,
}

pub record Manager : Type 0 where
  pub heap : Heap
  pub loggers : Dict ℕ
  pub root : ℕ

abbrev pub root_name : Bytes
root_name = codes "root"

abbrev pub empty_heap : World → Heap
empty_heap w = record {
  logger = λ _. new_logger [];
  next_logger = 0;
  appender = λ _. new_stdout_appender;
  next_appender = 0;
  world = w;
}

-- The constructor: the root logger, with one appender to the console, under its name.
unfoldable pub new_manager : World → Manager
unfolding add_appender assign
new_manager w =
    let h =
      alloc_appender (alloc_logger (empty_heap w) (new_logger root_name)) new_stdout_appender in
    record { heap = add_appender h 0 0; loggers = assign root_name 0 []; root = 0 }

abbrev pub get_root : Manager → ℕ
get_root m = m.root

-- The part of `getLogger` behind the look-up.
unfoldable pub get_or_create : Manager → Bytes → Option ℕ → Manager × ℕ
unfolding set_root
get_or_create m name (some p) = (m, p)
get_or_create m name none =
    let p = m.heap.next_logger in
    (
      record m {
        heap = set_root (alloc_logger m.heap (new_logger name)) p m.root;
        loggers = assign name p m.loggers;
      },
      p,
    )

unfoldable pub get_logger : Manager → Bytes → Manager × ℕ
unfolding get_or_create
get_logger m name = get_or_create m name (find name m.loggers)
