-- ===== src/Locks/Log/Ordered.antt =====
-- The calls into src/_log take their locks in the order: the registry's, a logger's, an
-- appender's.
use simple_http_server.Base.{
  ℕ, zero, suc, ◌≤◌, not, ◌&&◌, List, [], ◌∷◌, ◌++◌, ◌==◌, is_empty, arith,
}
use simple_http_server.Base.Bytes.{Bytes, codes}
use simple_http_server.Base.Dict.{Dict, find}
use simple_http_server.Log.Level.{LogLevel, info, level_le}
use simple_http_server.Log.Event.{LogEvent, stream_text}
use simple_http_server.Log.Formatter.{Calendar, new_formatter}
use simple_http_server.Log.Appender.{AppenderKind, stdout, file, LogAppender, is_due}
use simple_http_server.Log.Logger.{Heap, Site, site_event, log_at}
use simple_http_server.Log.Manager.{Manager, get_logger}
use simple_http_server.Log.Define.{
  LogAppenderDefine, LogDefine, make_appender, configure_appender, find_define, same_define,
  apply_define, retire,
}
use simple_http_server.Locks.{Trace}
use simple_http_server.Locks.Fits.{
  Fits, Fits-nil, Fits-append, Fits-le, Fits-if, Fits-scoped, Fits-locked_alone, Fits-on_found,
}
use simple_http_server.Locks.Log.{
  at_logger, at_appender, reopen_locks, appender_log_locks, appenders_yaml_locks, logger_yaml_locks,
  loggers_yaml_locks, manager_yaml_locks, get_root_locks, get_logger_locks, log_each_locks,
  log_locks, stream_locks, install_locks, configure_appender_locks, configure_appenders_locks,
  configure_locks, apply_define_locks, apply_defines_locks, retire_locks, remove_defines_locks,
  conf_changed_locks,
}

pub Fits-at_logger : (c p : ℕ) → c ≤ 4 → Fits c (at_logger p)
Fits-at_logger c p l = Fits-locked_alone c _ l (omega arith)

pub Fits-at_appender : (c a : ℕ) → c ≤ 5 → Fits c (at_appender a)
Fits-at_appender c a l = Fits-locked_alone c _ l (omega arith)

Fits-reopen : (k : AppenderKind) (a last now : ℕ) → Fits 5 (reopen_locks k a last now)
unfolding reopen_locks
Fits-reopen stdout a last now = Fits-nil 5
Fits-reopen (file name) a last now =
    Fits-if 5 (is_due last now) _ [] (Fits-at_appender 5 a (omega arith)) (Fits-nil 5)

Fits-appender_log :
    (a : ℕ) (x : LogAppender) (level : LogLevel) (event : LogEvent)
    → Fits 5 (appender_log_locks a x level event)
unfolding appender_log_locks
Fits-appender_log a x level event =
    let at = Fits-at_appender 5 a (omega arith) in
    Fits-if 5 (level_le x.level level) _ []
      (Fits-append 5 _ (at_appender a) (Fits-reopen x.kind a x.last_time event.time) at)
      (Fits-nil 5)

Fits-appenders_yaml : (as' : List ℕ) → Fits 5 (appenders_yaml_locks as')
unfolding appenders_yaml_locks
Fits-appenders_yaml [] = Fits-nil 5
Fits-appenders_yaml (a ∷ rest) =
    Fits-append 5 (at_appender a) (appenders_yaml_locks rest) (Fits-at_appender 5 a (omega arith))
      (Fits-appenders_yaml rest)

pub Fits-logger_yaml : (h : Heap) (p : ℕ) → Fits 4 (logger_yaml_locks h p)
unfolding logger_yaml_locks
Fits-logger_yaml h p =
    Fits-scoped 4 _ _ (omega arith) (omega arith) (Fits-appenders_yaml (h.logger p).appenders)

Fits-loggers_yaml : (h : Heap) (d : Dict ℕ) → Fits 4 (loggers_yaml_locks h d)
unfolding loggers_yaml_locks
Fits-loggers_yaml h [] = Fits-nil 4
Fits-loggers_yaml h ((name, p) ∷ rest) =
    Fits-append 4 (logger_yaml_locks h p) (loggers_yaml_locks h rest) (Fits-logger_yaml h p)
      (Fits-loggers_yaml h rest)

pub Fits-manager_yaml : (m : Manager) → Fits 3 (manager_yaml_locks m)
unfolding manager_yaml_locks
Fits-manager_yaml m =
    Fits-scoped 3 _ _ (omega arith) (omega arith) (Fits-loggers_yaml m.heap m.loggers)

pub Fits-get_root : Fits 3 get_root_locks
Fits-get_root = Fits-locked_alone 3 _ (omega arith) (omega arith)

pub Fits-get_logger : (m : Manager) (name : Bytes) → Fits 3 (get_logger_locks m name)
unfolding get_logger_locks
Fits-get_logger m name = Fits-scoped 3 _ _ (omega arith) (omega arith) (
    Fits-on_found 4 (find name m.loggers) _ _ (Fits-at_logger 4 m.heap.next_logger (omega arith))
      (λ p. Fits-nil 4))

module _ (cal : Calendar) where
  Fits-log_each :
      (h : Heap) (as' : List ℕ) (name : Bytes) (level : LogLevel) (event : LogEvent)
      → Fits 5 (log_each_locks cal h as' name level event)
  unfolding log_each_locks
  Fits-log_each h [] name level event = Fits-nil 5
  Fits-log_each h (a ∷ rest) name level event =
      Fits-append 5 (appender_log_locks a (h.appender a) level event) _
        (Fits-appender_log a (h.appender a) level event)
        (Fits-log_each (log_at cal h a name level event) rest name level event)

  pub Fits-log :
      (fuel : ℕ) (h : Heap) (p : ℕ) (level : LogLevel) (event : LogEvent)
      → Fits 4 (log_locks cal fuel h p level event)
  unfolding log_locks
  Fits-log zero h p level event = Fits-nil 4
  Fits-log (suc fuel) h p level event =
      let l = h.logger p in
      Fits-if 4 (level_le l.level level) _ []
        (Fits-if 4 (is_empty l.appenders) _ _
          (Fits-on_found 4 l.root [] _ (Fits-nil 4) (λ r. Fits-log fuel h r level event))
          (Fits-scoped 4 _ _ (omega arith) (omega arith)
            (Fits-log_each h l.appenders l.name level event)))
        (Fits-nil 4)

  pub Fits-stream :
      (c : ℕ) (named streamed : Trace) (fuel : ℕ) (h : Heap) (p : ℕ) (level : LogLevel)
      (site : Site) (text : Bytes)
      → c ≤ 4
      → Fits c named
      → Fits c streamed
      → Fits c (stream_locks cal named streamed fuel h p level site text)
  unfolding stream_locks
  Fits-stream c named streamed fuel h p level site text l fn fs =
      let event = stream_text (site_event p level site) text in
      let fl = Fits-le c 4 _ l (Fits-log fuel h event.logger event.level event) in
      let logged = Fits-append c named _ fn (Fits-append c streamed _ fs fl) in
      Fits-append c named _ fn (
        Fits-append c (at_logger p) _ (Fits-at_logger c p l)
          (Fits-if c (level_le (h.logger p).level level) _ [] logged (Fits-nil c)))

Fits-install : (n p : ℕ) (a : LogAppenderDefine) → Fits 3 (install_locks n p a)
unfolding install_locks
Fits-install n p a =
    let at = Fits-at_appender 3 n (omega arith) in
    Fits-append 3 _ _ (Fits-if 3 (a.type == 1) _ [] at (Fits-nil 3)) (
      Fits-append 3 _ _ at (
        Fits-append 3 _ (at_logger p)
          (Fits-if 3 (not (is_empty a.formatter) && not (new_formatter a.formatter).failed) _ [] at
            (Fits-nil 3))
          (Fits-at_logger 3 p (omega arith))))

Fits-configure_appender :
    (m : Manager) (p : ℕ) (a : LogAppenderDefine) → Fits 3 (configure_appender_locks m p a)
unfolding configure_appender_locks
Fits-configure_appender m p a =
    Fits-on_found 3 (make_appender m.heap.world a) [] _ (Fits-nil 3)
      (λ made. Fits-install m.heap.next_appender p a)

Fits-configure_appenders :
    (m : Manager) (p : ℕ) (name : Bytes) (as' : List LogAppenderDefine)
    → Fits 3 (configure_appenders_locks m p name as')
unfolding configure_appenders_locks
Fits-configure_appenders m p name [] = Fits-nil 3
Fits-configure_appenders m p name (a ∷ rest) =
    Fits-append 3 (configure_appender_locks m p a) _ (Fits-configure_appender m p a)
      (Fits-configure_appenders (configure_appender m p name a) p name rest)

-- The locks of `getLogger`, `setLevel` and `clearAppenders` in a row.
Fits-reset :
    (m : Manager) (name : Bytes) (p : ℕ) (t : Trace)
    → Fits 3 t
    → Fits 3 (get_logger_locks m name ++ (at_logger p ++ (at_logger p ++ t)))
Fits-reset m name p t ft =
    let at = Fits-at_logger 3 p (omega arith) in
    Fits-append 3 (get_logger_locks m name) _ (Fits-get_logger m name)
      (Fits-append 3 (at_logger p) _ at (Fits-append 3 (at_logger p) t at ft))

Fits-configure : (m : Manager) (d : LogDefine) → Fits 3 (configure_locks m d)
unfolding configure_locks
Fits-configure m d =
    let (m', p) = get_logger m d.name in
    Fits-reset m d.name p _ (Fits-configure_appenders _ p d.name d.appenders)

Fits-apply_define :
    (old : List LogDefine) (m : Manager) (d : LogDefine) → Fits 3 (apply_define_locks old m d)
unfolding apply_define_locks
Fits-apply_define old m d =
    Fits-on_found 3 (find_define d.name old) _ _ (Fits-configure m d)
      (λ before. Fits-if 3 (same_define d before) [] _ (Fits-nil 3) (Fits-configure m d))

Fits-apply_defines :
    (old : List LogDefine) (m : Manager) (ds : List LogDefine)
    → Fits 3 (apply_defines_locks old m ds)
unfolding apply_defines_locks
Fits-apply_defines old m [] = Fits-nil 3
Fits-apply_defines old m (d ∷ ds) =
    Fits-append 3 (apply_define_locks old m d) _ (Fits-apply_define old m d)
      (Fits-apply_defines old (apply_define old m d) ds)

Fits-retire : (m : Manager) (name : Bytes) → Fits 3 (retire_locks m name)
unfolding retire_locks
Fits-retire m name =
    let at = Fits-at_logger 3 (get_logger m name).1 (omega arith) in
    Fits-append 3 (get_logger_locks m name) _ (Fits-get_logger m name) (Fits-append 3 _ _ at at)

Fits-remove_defines :
    (new : List LogDefine) (m : Manager) (ds : List LogDefine)
    → Fits 3 (remove_defines_locks new m ds)
unfolding remove_defines_locks
Fits-remove_defines new m [] = Fits-nil 3
Fits-remove_defines new m (d ∷ ds) =
    let kept_on = Fits-remove_defines new m ds in
    Fits-on_found 3 (find_define d.name new) _ _
      (Fits-append 3 (retire_locks m d.name) _ (Fits-retire m d.name)
        (Fits-remove_defines new (retire m d.name) ds))
      (λ kept. kept_on)

pub Fits-conf_changed :
    (cal : Calendar) (fuel : ℕ) (site : Site) (m : Manager) (old new : List LogDefine)
    → Fits 3 (conf_changed_locks cal fuel site m old new)
unfolding conf_changed_locks
Fits-conf_changed cal fuel site m old new =
    Fits-append 3 _ _
      (Fits-stream cal 3 get_root_locks [] fuel m.heap m.root info site
        (codes "on_logger_conf_changed") (omega arith) Fits-get_root (Fits-nil 3))
      (Fits-append 3 _ _ (Fits-apply_defines old _ new) (Fits-remove_defines new _ old))
