-- ===== src/Tests/Define.antt =====
-- Tests of the YAML form of `LogDefine`.
use simple_http_server.Base.{ℕ, zero, suc, true, false, ◌≡◌, refl, [], ◌∷◌, none, some}
use simple_http_server.Base.Bytes.{Bytes, codes}
use simple_http_server.Log.Level.{LogLevel, unknow, info, error, level_eq, level_le}
use simple_http_server.Log.Appender.{AppenderKind, stdout, file, LogAppender, new_stream}
use simple_http_server.Log.Logger.{Heap}
use simple_http_server.Log.Define.{LogDefine}
use simple_http_server.Log.Define.Text.{node_of_define, define_of_node}
use simple_http_server.Tests.Trees.{Tree, trees, trees-IsYaml}
use simple_http_server.Log.Dump.{logger_to_yaml}
use simple_http_server.Log.Dump.Read.{define_of, define_of_node-logger_to_yaml}

-- A logger at INFO, with a file appender at ERROR and one for the console.
abbrev system_define : LogDefine
system_define = record {
  name = codes "system";
  level = info;
  formatter = [];
  appenders =
      record { type = 1; level = error; formatter = codes "%m"; file = codes "x.log" }
      ∷ record { type = 2; level = unknow; formatter = []; file = [] }
      ∷ [];
}

abbrev written : Tree
written = node_of_define (trees none) system_define

-- The logger "system" at INFO, with a file appender at ERROR and one for the console.
abbrev with_pattern : AppenderKind → LogLevel → Bytes → LogAppender
with_pattern kind level pattern = record {
  kind = kind;
  level = level;
  formatter = record { pattern = pattern; items = []; failed = false };
  stream = new_stream;
  last_time = 0;
}

abbrev system_appender : ℕ → LogAppender
system_appender zero = with_pattern (file (codes "x.log")) error (codes "%m")
system_appender (suc n) = with_pattern stdout unknow (codes "%p")

abbrev system_heap : Heap
system_heap = record {
  logger = λ p. record { name = codes "system"; level = info; appenders = 0 ∷ 1 ∷ []; root = none };
  next_logger = 1;
  appender = system_appender;
  next_appender = 2;
  world = record {
    console = [];
    files = λ name. [];
    can_open = λ name. true;
    can_write = λ name. true;
  };
}

define_of_node-logger_to_yaml_example :
    define_of_node (trees none) (logger_to_yaml (trees none) system_heap 0)
    ≡ some (record {
      name = codes "system";
      level = info;
      formatter = [];
      appenders =
          record { type = 1; level = info; formatter = codes "%m"; file = codes "x.log" }
          ∷ record { type = 2; level = info; formatter = codes "%p"; file = [] }
          ∷ [];
    })
unfolding level_eq level_le define_of
define_of_node-logger_to_yaml_example =
    define_of_node-logger_to_yaml (trees none) system_heap 0 (trees-IsYaml none) refl
