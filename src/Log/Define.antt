-- ===== src/Log/Define.antt =====
-- src/_log/log.cpp: `LogAppenderDefine`, `LogDefine`, and the listener of `LogIniter`, which
-- brings the registered loggers into line with the "logs" entry of the configuration.
pub mod Frame
pub mod Changes
pub mod Grows
pub mod Installed
pub mod Settled
pub mod Output
pub mod Logged
pub mod Text
use simple_http_server.Base.{
  ℕ, zero, suc, ◌+◌, Bool, true, false, not, ◌&&◌, List, [], ◌∷◌, ◌++◌, Option, none, some,
  if◌then◌else◌, ◌==◌, is_empty, length,
}
use simple_http_server.Base.Bytes.{Bytes, codes, same, decimal}
use simple_http_server.Log.Level.{LogLevel, unknow, info, level_eq}
use simple_http_server.Log.Formatter.{Calendar, LogFormatter, new_formatter}
use simple_http_server.Log.Appender.{
  World, LogAppender, AppenderKind, new_stdout_appender, new_file_appender, print_line,
}
use simple_http_server.Log.Appender
use simple_http_server.Log.Logger.{
  Heap, Site, alloc_appender, add_appender, clear_appenders, set_level, log_stream,
}
use simple_http_server.Log.Manager.{Manager, get_logger}

pub record LogAppenderDefine : Type 0 where
  pub type : ℕ
  pub level : LogLevel
  pub formatter : Bytes
  pub file : Bytes

pub record LogDefine : Type 0 where
  pub name : Bytes
  pub level : LogLevel
  pub formatter : Bytes
  pub appenders : List LogAppenderDefine

-- `LogAppenderDefine::operator==`
unfoldable pub same_appender : LogAppenderDefine → LogAppenderDefine → Bool
same_appender a b =
    a.type == b.type
    && level_eq a.level b.level
    && same a.formatter b.formatter
    && same a.file b.file

-- `operator==` of the vectors of appenders.
unfoldable pub same_appenders : List LogAppenderDefine → List LogAppenderDefine → Bool
same_appenders [] [] = true
same_appenders [] (b ∷ bs) = false
same_appenders (a ∷ as') [] = false
same_appenders (a ∷ as') (b ∷ bs) = same_appender a b && same_appenders as' bs

-- `LogDefine::operator==`, which compares `appenders` with itself.
unfoldable pub same_define : LogDefine → LogDefine → Bool
same_define d oth =
    same d.name oth.name
    && level_eq d.level oth.level
    && same d.formatter oth.formatter
    && same_appenders d.appenders d.appenders

-- `std::set<LogDefine>` orders and finds its entries by name.
unfoldable pub find_define : Bytes → List LogDefine → Option LogDefine
find_define name [] = none
find_define name (d ∷ ds) = if same d.name name then some d else find_define name ds

-- The appender that a definition asks for; none for an unknown type.
unfoldable pub make_appender : World → LogAppenderDefine → Option LogAppender
make_appender w a =
    if a.type == 1
    then some (new_file_appender w a.file)
    else if a.type == 2
    then some new_stdout_appender
    else none

abbrev pub invalid_formatter : Bytes → LogAppenderDefine → Bytes
invalid_formatter name a =
    codes "log.name="
    ++ (name
        ++ (codes " appender type="
            ++ (decimal a.type ++ (codes " formatter=" ++ (a.formatter ++ codes " is invalid")))))

-- A formatter is set only if its pattern has no error; otherwise a message goes to the console.
unfoldable pub apply_formatter :
    Bytes → LogAppenderDefine → LogAppender → World → LogAppender × World
apply_formatter name a ap w =
    if is_empty a.formatter
    then (ap, w)
    else if not (new_formatter a.formatter).failed
    then (Appender.set_formatter ap (new_formatter a.formatter), w)
    else (ap, print_line w (invalid_formatter name a))

-- The body of the inner loop, for an appender that was made.
unfoldable pub install : Manager → ℕ → Bytes → LogAppenderDefine → LogAppender → Manager
install m p name a made =
    let (ready, w) = apply_formatter name a (Appender.set_level made a.level) m.heap.world in
    let h = alloc_appender (record m.heap { world = w }) ready in
    record m { heap = add_appender h p m.heap.next_appender }

unfoldable pub configure_appender : Manager → ℕ → Bytes → LogAppenderDefine → Manager
configure_appender m p name a = elim (make_appender m.heap.world a) [
  | none ↦ m
  | some made ↦ install m p name a made
]

unfoldable pub configure_appenders : Manager → ℕ → Bytes → List LogAppenderDefine → Manager
configure_appenders m p name [] = m
configure_appenders m p name (a ∷ rest) =
    configure_appenders (configure_appender m p name a) p name rest

abbrev pub with_heap : Manager → Heap → Manager
with_heap m h = record m { heap = h }

-- The rest of the outer loop's body: the logger's level and appenders are those of `d`.
unfoldable pub configure : Manager → LogDefine → Manager
configure m d =
    let (m', p) = get_logger m d.name in
    configure_appenders (with_heap m' (clear_appenders (set_level m'.heap p d.level) p)) p d.name
      d.appenders

-- One definition of the new value: left alone if the old value has an equal one.
unfoldable pub apply_define : List LogDefine → Manager → LogDefine → Manager
apply_define old m d = elim (find_define d.name old) [
  | none ↦ configure m d
  | some before ↦ if same_define d before then m else configure m d
]

unfoldable pub apply_defines : List LogDefine → Manager → List LogDefine → Manager
apply_defines old m [] = m
apply_defines old m (d ∷ ds) = apply_defines old (apply_define old m d) ds

-- A logger that is no longer defined keeps its place, without level and appenders.
unfoldable pub retire : Manager → Bytes → Manager
retire m name =
    let (m', p) = get_logger m name in with_heap m' (clear_appenders (set_level m'.heap p unknow) p)

unfoldable pub remove_defines : List LogDefine → Manager → List LogDefine → Manager
remove_defines new m [] = m
remove_defines new m (d ∷ ds) = elim (find_define d.name new) [
  | none ↦ remove_defines new (retire m d.name) ds
  | some kept ↦ remove_defines new m ds
]

-- The listener, behind its message to the root logger.
unfoldable pub on_defines_changed : Manager → List LogDefine → List LogDefine → Manager
on_defines_changed m old new = remove_defines new (apply_defines old m new) old

-- The listener.
unfoldable pub on_logger_conf_changed :
    Calendar → ℕ → Site → Manager → List LogDefine → List LogDefine → Option Manager
on_logger_conf_changed cal fuel site m old new =
    elim (log_stream cal fuel m.heap m.root info site (codes "on_logger_conf_changed")) [
      | none ↦ none
      | some h ↦ some (on_defines_changed (with_heap m h) old new)
    ]
