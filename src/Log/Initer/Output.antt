-- ===== src/Log/Initer/Output.antt =====
-- From the text of the configuration to what the loggers write.
use simple_http_server.Base.{ℕ, suc, ◌≡◌, ◌∙◌, ap, true, false, some, List, [], ◌∷◌, All, is_empty}
use simple_http_server.Base.Bytes.{Bytes}
use simple_http_server.Base.Dict.{find}
use simple_http_server.Log.Level.{LogLevel, level_le}
use simple_http_server.Log.Event.{LogEvent}
use simple_http_server.Log.Formatter.{Calendar}
use simple_http_server.Log.Appender.{World, AppenderKind, stdout, file}
use simple_http_server.Log.Appender.Written.{IsAllowed}
use simple_http_server.Log.Logger.{Heap, Site, log}
use simple_http_server.Log.Manager.{Manager}
use simple_http_server.Log.Manager.Invariant.{IsValid}
use simple_http_server.Log.Define.{
  LogAppenderDefine, LogDefine, find_define, with_heap, on_defines_changed,
}
use simple_http_server.Log.Define.Frame.{Keeps-IsValid, on_defines_changed-IsValid}
use simple_http_server.Log.Define.Grows.{on_defines_changed-Grows}
use simple_http_server.Log.Define.Installed.{kind_of, known}
use simple_http_server.Log.Define.Settled.{IsChanged, on_defines_changed-IsSettled}
use simple_http_server.Log.Define.Output.{Added}
use simple_http_server.Log.Define.Logged.{log-Added}
use simple_http_server.Log.Define.Text.{YamlText}
use simple_http_server.Config.Cast.{YamlList, set_of_text}
use simple_http_server.Config.Var.{ConfigVar, from_string}
use simple_http_server.Log.Initer.{before_define, same_defines, define_element, logs_setting}
use simple_http_server.Log.Initer.Reload.{SameLoggers-Keeps, Listens}
use simple_http_server.Log.Initer.Levels.{from_string-set, read-HasNames}

IsAllowed-same :
    (k : AppenderKind) (w v : World)
    → v.can_open ≡ w.can_open
    → v.can_write ≡ w.can_write
    → IsAllowed w k
    → IsAllowed v k
IsAllowed-same stdout w v e f c = tt
IsAllowed-same (file name) w v e f (o, p) = (ap (λ g. g name) e ∙ o, ap (λ g. g name) f ∙ p)

All-IsAllowed :
    (as' : List LogAppenderDefine) (w v : World)
    → v.can_open ≡ w.can_open
    → v.can_write ≡ w.can_write
    → All (λ a. IsAllowed w (kind_of a)) as'
    → All (λ a. IsAllowed v (kind_of a)) as'
All-IsAllowed [] w v e f c = tt
All-IsAllowed (a ∷ rest) w v e f (c, cs) =
    (IsAllowed-same (kind_of a) w v e f c, All-IsAllowed rest w v e f cs)

-- After a text for "logs" has been read as definitions that differ from the ones that are set, a
-- message at a level that passes comes back from the logger of a definition that is new or has
-- changed, and adds to the console and to every file exactly what the definition's appenders of a
-- known type make of it, in their order and nothing else: each that lets the level pass, the
-- message in its own format, or in the default one if it has none or one with an error. This is so
-- if the registry of loggers was valid, the listener of `LogIniter` is the variable's only one, the
-- definition has an appender of a known type, and the files of these can be opened and written.
pub from_string-Added :
    (cal : Calendar) (site : Site) (lists : YamlList) (yaml : YamlText)
    (report : Bytes → Bytes → Manager → Manager) (v : ConfigVar (List LogDefine) Manager)
    (m : Manager) (text : Bytes) (new : List LogDefine) (d : LogDefine) (fuel : ℕ)
    (level : LogLevel) (event : LogEvent)
    → Listens cal site v
    → IsValid m
    → set_of_text lists (define_element yaml) before_define text ≡ some new
    → same_defines v.value new ≡ false
    → find_define d.name new ≡ some d
    → IsChanged v.value d
    → All (λ a. IsAllowed m.heap.world (kind_of a)) (known d.appenders)
    → is_empty (known d.appenders) ≡ false
    → level_le d.level level ≡ true
    → let n = (from_string (logs_setting lists yaml report) v text m).1 in
      (p : ℕ) × (h : Heap) × (find d.name n.loggers ≡ some p)
      × (log cal (suc (suc fuel)) n.heap p level event ≡ some h)
      × Added cal n.heap.world h.world (known d.appenders) d.name level event
from_string-Added cal site lists yaml report v m text new d fuel level event ls ok read differs
      there changed allowed some_appender pass =
    let (h, same, e) = from_string-set cal site lists yaml report v m text new ls ok read differs in
    let valid = Keeps-IsValid (SameLoggers-Keeps m h same) ok in
    let n = on_defines_changed (with_heap m h) v.value new in
    let grown = on_defines_changed-Grows (with_heap m h) v.value new in
    let s =
      on_defines_changed-IsSettled (with_heap m h) v.value new d valid
        (read-HasNames lists yaml text new read) there changed in
    let (h', logged, added) =
      log-Added cal n d fuel level event
        (on_defines_changed-IsValid (with_heap m h) v.value new valid) s
        (All-IsAllowed (known d.appenders) m.heap.world n.heap.world
          (grown.same_open ∙ same.same_open) (grown.same_write ∙ same.same_write) allowed)
        pass some_appender in
    rw (e) (s.pointer, h', s.registered, logged, added)
