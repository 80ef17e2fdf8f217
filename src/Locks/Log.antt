-- ===== src/Locks/Log.antt =====
-- The scoped locks of the calls into src/_log.
pub mod Ordered
use simple_http_server.Base.{
  ℕ, zero, suc, Bool, true, false, not, ◌&&◌, List, [], ◌∷◌, ◌++◌, Option, none, some,
  if◌then◌else◌, ◌==◌, is_empty,
}
use simple_http_server.Base.Bytes.{Bytes, codes}
use simple_http_server.Base.Dict.{Dict, find}
use simple_http_server.Log.Level.{LogLevel, info, level_le, unknow}
use simple_http_server.Log.Event.{LogEvent, stream_text}
use simple_http_server.Log.Formatter.{Calendar, new_formatter}
use simple_http_server.Log.Appender.{AppenderKind, stdout, file, LogAppender, is_due}
use simple_http_server.Log.Logger.{
  Logger, Heap, Site, site_event, log_at, clear_appenders, set_level, log_stream,
}
use simple_http_server.Log.Manager.{Manager, get_logger}
use simple_http_server.Log.Define.{
  LogAppenderDefine, LogDefine, make_appender, configure_appender, with_heap, find_define,
  same_define, apply_define, apply_defines, retire,
}
use simple_http_server.Locks.{Trace, locked, on_found, manager_lock, logger_lock, appender_lock}

-- `setLevel`, `getLevel`, `setRoot`, `clearAppenders`, `addAppender` and `delAppender` of a
-- logger.
abbrev pub at_logger : ℕ → Trace
at_logger p = locked (logger_lock p) []

-- `setLevel`, `getLevel`, `setFormatter`, `getFormatter`, `toYamlNode` and `reopen` of an
-- appender.
abbrev pub at_appender : ℕ → Trace
at_appender a = locked (appender_lock a) []

-- The file is opened again under a lock of its own.
unfoldable pub reopen_locks : AppenderKind → ℕ → ℕ → ℕ → Trace
reopen_locks stdout a last now = []
reopen_locks (file name) a last now = if is_due last now then at_appender a else []

-- `LogAppender::log`
unfoldable pub appender_log_locks : ℕ → LogAppender → LogLevel → LogEvent → Trace
unfolding reopen_locks
appender_log_locks a x level event =
    if level_le x.level level
    then reopen_locks x.kind a x.last_time event.time ++ at_appender a
    else []

-- The locks that the appenders' `toYamlNode` takes one after the other.
unfoldable pub appenders_yaml_locks : List ℕ → Trace
appenders_yaml_locks [] = []
appenders_yaml_locks (a ∷ rest) = at_appender a ++ appenders_yaml_locks rest

-- `Logger::toYamlNode`
unfoldable pub logger_yaml_locks : Heap → ℕ → Trace
logger_yaml_locks h p = locked (logger_lock p) (appenders_yaml_locks (h.logger p).appenders)

unfoldable pub loggers_yaml_locks : Heap → Dict ℕ → Trace
loggers_yaml_locks h [] = []
loggers_yaml_locks h ((name, p) ∷ rest) = logger_yaml_locks h p ++ loggers_yaml_locks h rest

-- `LoggerManager::toYamlNode`
unfoldable pub manager_yaml_locks : Manager → Trace
manager_yaml_locks m = locked manager_lock (loggers_yaml_locks m.heap m.loggers)

abbrev pub get_root_locks : Trace
get_root_locks = locked manager_lock []

-- `LoggerManager::getLogger`: a new logger is given its root under the manager's lock.
unfoldable pub get_logger_locks : Manager → Bytes → Trace
get_logger_locks m name =
    locked manager_lock (on_found (find name m.loggers) (at_logger m.heap.next_logger) (λ p. []))

module _ (cal : Calendar) where
  -- The loop of `Logger::log`.
  unfoldable pub log_each_locks : Heap → List ℕ → Bytes → LogLevel → LogEvent → Trace
  log_each_locks h [] name level event = []
  log_each_locks h (a ∷ rest) name level event =
      appender_log_locks a (h.appender a) level event
      ++ log_each_locks (log_at cal h a name level event) rest name level event

  -- `Logger::log`, with fuel for the calls up the chain of roots: the root's `log` is called with
  -- no lock held.
  unfoldable pub log_locks : ℕ → Heap → ℕ → LogLevel → LogEvent → Trace
  log_locks zero h p level event = []
  log_locks (suc fuel) h p level event =
      let l = h.logger p in
      let at_root = on_found l.root [] (λ r. log_locks fuel h r level event) in
      let own = locked (logger_lock p) (log_each_locks h l.appenders l.name level event) in
      if level_le l.level level then (if is_empty l.appenders then at_root else own) else []

  -- `SHS_LOG_LEVEL(logger, level) << text`; the expression for the logger, which is evaluated
  -- twice, takes the locks `named`, and the text takes the locks `streamed`.
  unfoldable pub stream_locks : Trace → Trace → ℕ → Heap → ℕ → LogLevel → Site → Bytes → Trace
  stream_locks named streamed fuel h p level site text =
      let event = stream_text (site_event p level site) text in
      let logged = named ++ (streamed ++ log_locks fuel h event.logger event.level event) in
      named ++ (at_logger p ++ (if level_le (h.logger p).level level then logged else []))

  -- The same for `SHS_LOG_ROOT()`.
  abbrev pub root_stream_locks : Trace → ℕ → Manager → LogLevel → Site → Bytes → Trace
  root_stream_locks streamed fuel m level site text =
      stream_locks get_root_locks streamed fuel m.heap m.root level site text

-- The listener of `LogIniter`: an appender that was made, at `n`.
unfoldable pub install_locks : ℕ → ℕ → LogAppenderDefine → Trace
install_locks n p a =
    let opened : Trace = if a.type == 1 then at_appender n else [] in
    let formatted : Trace =
      if not (is_empty a.formatter) && not (new_formatter a.formatter).failed
      then at_appender n
      else [] in
    opened ++ (at_appender n ++ (formatted ++ at_logger p))

unfoldable pub configure_appender_locks : Manager → ℕ → LogAppenderDefine → Trace
configure_appender_locks m p a =
    on_found (make_appender m.heap.world a) [] (λ made. install_locks m.heap.next_appender p a)

unfoldable pub configure_appenders_locks : Manager → ℕ → Bytes → List LogAppenderDefine → Trace
configure_appenders_locks m p name [] = []
configure_appenders_locks m p name (a ∷ rest) =
    configure_appender_locks m p a
    ++ configure_appenders_locks (configure_appender m p name a) p name rest

unfoldable pub configure_locks : Manager → LogDefine → Trace
configure_locks m d =
    let (m', p) = get_logger m d.name in
    get_logger_locks m d.name
    ++ (at_logger p
        ++ (at_logger p
            ++ configure_appenders_locks
                (with_heap m' (clear_appenders (set_level m'.heap p d.level) p)) p d.name
                d.appenders))

unfoldable pub apply_define_locks : List LogDefine → Manager → LogDefine → Trace
apply_define_locks old m d =
    on_found (find_define d.name old) (configure_locks m d)
      (λ before. if same_define d before then [] else configure_locks m d)

unfoldable pub apply_defines_locks : List LogDefine → Manager → List LogDefine → Trace
apply_defines_locks old m [] = []
apply_defines_locks old m (d ∷ ds) =
    apply_define_locks old m d ++ apply_defines_locks old (apply_define old m d) ds

unfoldable pub retire_locks : Manager → Bytes → Trace
retire_locks m name =
    let p = (get_logger m name).1 in get_logger_locks m name ++ (at_logger p ++ at_logger p)

unfoldable pub remove_defines_locks : List LogDefine → Manager → List LogDefine → Trace
remove_defines_locks new m [] = []
remove_defines_locks new m (d ∷ ds) =
    let kept_on = remove_defines_locks new m ds in
    on_found (find_define d.name new)
      (retire_locks m d.name ++ remove_defines_locks new (retire m d.name) ds) (λ kept. kept_on)

unfoldable pub conf_changed_locks :
    Calendar → ℕ → Site → Manager → List LogDefine → List LogDefine → Trace
conf_changed_locks cal fuel site m old new =
    let h : Heap =
      elim (log_stream cal fuel m.heap m.root info site (codes "on_logger_conf_changed")) [
        | none ↦ m.heap
        | some h' ↦ h'
      ] in
    let m' = with_heap m h in
    root_stream_locks cal [] fuel m info site (codes "on_logger_conf_changed")
    ++ (apply_defines_locks old m' new ++ remove_defines_locks new (apply_defines old m' new) old)
