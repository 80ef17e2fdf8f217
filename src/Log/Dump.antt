-- ===== src/Log/Dump.antt =====
-- src/_log/log.cpp: `toYamlNode` and `toYamlString` of appenders, loggers and their registry.
pub mod Read
use simple_http_server.Base.{ℕ, Bool, true, false, not, List, [], ◌∷◌, ◌++◌, if◌then◌else◌, map}
use simple_http_server.Base.Bytes.{Bytes, codes}
use simple_http_server.Base.Dict.{Dict}
use simple_http_server.Log.Level.{LogLevel, unknow, level_eq, to_string}
use simple_http_server.Log.Appender.{AppenderKind, stdout, file, LogAppender}
use simple_http_server.Log.Logger.{Logger, Heap}
use simple_http_server.Log.Manager.{Manager}
use simple_http_server.Log.Define.Text.{YamlText}

module _ (yaml : YamlText) where
  open yaml use {Node, of_text, of_map, of_list, emit}

  -- The level is written unless it is UNKNOW.
  abbrev pub level_entry : LogLevel → List (Bytes × Node)
  level_entry l =
      if not (level_eq l unknow) then (codes "level", of_text (to_string l)) ∷ [] else []

  abbrev pub type_name : AppenderKind → Bytes
  type_name stdout = codes "StdoutLogAppender"
  type_name (file name) = codes "FileLogAppender"

  abbrev pub file_entry : AppenderKind → List (Bytes × Node)
  file_entry stdout = []
  file_entry (file name) = (codes "file", of_text name) ∷ []

  abbrev pub appender_entries : LogAppender → List (Bytes × Node)
  appender_entries a =
      (codes "type", of_text (type_name a.kind))
      ∷ (level_entry a.level
          ++ (codes "formatter", of_text a.formatter.pattern) ∷ file_entry a.kind)

  -- `StdoutLogAppender::toYamlNode` and `FileLogAppender::toYamlNode`
  unfoldable pub appender_to_yaml : LogAppender → Node
  appender_to_yaml a = of_map (appender_entries a)

  abbrev pub appenders_entry : Heap → List ℕ → List (Bytes × Node)
  appenders_entry h [] = []
  appenders_entry h (p ∷ rest) =
      (codes "appenders", of_list (map (λ q. appender_to_yaml (h.appender q)) (p ∷ rest))) ∷ []

  -- `Logger::toYamlNode`
  unfoldable pub logger_to_yaml : Heap → ℕ → Node
  unfolding appender_to_yaml
  logger_to_yaml h p =
      let l = h.logger p in
      of_map
        ((codes "name", of_text l.name) ∷ (level_entry l.level ++ appenders_entry h l.appenders))

  abbrev pub loggers_to_yaml : Heap → Dict ℕ → List Node
  loggers_to_yaml h [] = []
  loggers_to_yaml h ((name, p) ∷ rest) = logger_to_yaml h p ∷ loggers_to_yaml h rest

  -- `LoggerManager::toYamlNode`
  unfoldable pub manager_to_yaml : Manager → Node
  unfolding logger_to_yaml
  manager_to_yaml m = of_list (loggers_to_yaml m.heap m.loggers)

  -- `toYamlString`
  unfoldable pub appender_to_text : LogAppender → Bytes
  unfolding appender_to_yaml
  appender_to_text a = emit (appender_to_yaml a)

  unfoldable pub logger_to_text : Heap → ℕ → Bytes
  unfolding logger_to_yaml
  logger_to_text h p = emit (logger_to_yaml h p)

  unfoldable pub manager_to_text : Manager → Bytes
  unfolding manager_to_yaml
  manager_to_text m = emit (manager_to_yaml m)
