-- ===== src/Log/Define/Changes.antt =====
-- What a change of the "logs" configuration does to one logger.
use simple_http_server.Base.{
  ℕ, suc, ◌+◌, ◌≡◌, refl, ◌∙◌, ap, Bool, true, false, List, [], ◌∷◌, ◌++◌, append-nil, append_assoc,
  none, some, arith, Option-cases, inl, inr, Bool-cases, if◌then◌else◌, ◌==◌, ◌||◌,
}
use simple_http_server.Base.Bytes.{Bytes, same_refl}
use simple_http_server.Base.Dict.{find}
use simple_http_server.Log.Level.{LogLevel, unknow, level_eq, level_le}
use simple_http_server.Log.Event.{LogEvent}
use simple_http_server.Log.Formatter.{Calendar}
use simple_http_server.Log.Appender.{World, LogAppender}
use simple_http_server.Log.Logger.{Logger, Heap, set_level, clear_appenders, add_appender, log}
use simple_http_server.Log.Manager.{Manager, get_logger}
use simple_http_server.Log.Manager.Invariant.{IsValid, find-get_logger}
use simple_http_server.Log.Manager.Routing.{deliver, routed, log-registered}
use simple_http_server.Log.Define.{
  LogAppenderDefine, LogDefine, find_define, make_appender, install, configure_appender,
  configure_appenders, with_heap, configure, same_appender, same_appenders, same_define,
  apply_define, retire,
}
use simple_http_server.Log.Define.Frame.{retire-IsValid}

pub level_eq_refl : (l : LogLevel) → level_eq l l ≡ true
unfolding level_eq
level_eq_refl l = ground arith

pub same_appenders_refl : (as' : List LogAppenderDefine) → same_appenders as' as' ≡ true
unfolding same_appenders same_appender
same_appenders_refl [] = refl
same_appenders_refl (a ∷ rest) = ground (
  arith,
  level_eq_refl a.level,
  same_refl a.formatter,
  same_refl a.file,
  same_appenders_refl rest,
)

-- A definition is equal to any that differs from it in the appenders alone, so that a
-- change of a logger's appenders in the configuration is not applied.
pub appenders_change_ignored :
    (old : List LogDefine) (m : Manager) (d : LogDefine) (before : List LogAppenderDefine)
    → find_define d.name old ≡ some (record d { appenders = before })
    → apply_define old m d ≡ m
unfolding apply_define
appenders_change_ignored old m d before e = rw (e, apply_define) (rw equal refl)
  where
    equal : same_define d (record d { appenders = before }) ≡ true
    equal =
        unfold same_define in
        ground (
          arith,
          same_refl d.name,
          level_eq_refl d.level,
          same_refl d.formatter,
          same_appenders_refl d.appenders,
        )

-- The types that the listener knows.
abbrev pub has_type : LogAppenderDefine → Bool
has_type a = a.type == 1 || a.type == 2

-- The addresses of the appenders that a list of definitions makes, from the next free one.
abbrev pub addresses : ℕ → List LogAppenderDefine → List ℕ
addresses next [] = []
addresses next (a ∷ rest) =
    if has_type a then next ∷ addresses (next + 1) rest else addresses next rest

-- The logger at `q`, with more appenders if it is the one at `p`.
abbrev extended : Heap → ℕ → ℕ → List ℕ → Logger
extended h p q more =
    if p == q
    then record (h.logger q) { appenders = (h.logger q).appenders ++ more }
    else h.logger q

install_lem :
    (m : Manager) (p q : ℕ) (name : Bytes) (a : LogAppenderDefine) (made : LogAppender)
    → (install m p name a made).heap.logger q ≡ extended m.heap p q (m.heap.next_appender ∷ [])
unfolding install add_appender
install_lem m p q name a made = ground arith

pub install-next :
    (m : Manager) (p : ℕ) (name : Bytes) (a : LogAppenderDefine) (made : LogAppender)
    → (install m p name a made).heap.next_appender ≡ m.heap.next_appender + 1
unfolding install add_appender
install-next m p name a made = refl

pub make_appender_typed :
    (w : World) (a : LogAppenderDefine)
    → has_type a ≡ true
    → (made : LogAppender) × (make_appender w a ≡ some made)
unfolding make_appender
make_appender_typed w a h = elim (Option-cases (make_appender w a)) [
  | inl e ↦ absurd (ground arith)
  | inr found ↦ found
]

pub make_appender_untyped :
    (w : World) (a : LogAppenderDefine) → has_type a ≡ false → make_appender w a ≡ none
unfolding make_appender
make_appender_untyped w a h = ground arith

extended_twice :
    (m : Manager) (p q : ℕ) (name : Bytes) (a : LogAppenderDefine) (made : LogAppender)
    → (more : List ℕ)
    → extended (install m p name a made).heap p q more
      ≡ extended m.heap p q (m.heap.next_appender ∷ more)
unfolding install add_appender
extended_twice m p q name a made more =
    ground (arith, append_assoc (m.heap.logger q).appenders (m.heap.next_appender ∷ []) more)

configure_appenders_lem :
    (as' : List LogAppenderDefine) (m : Manager) (p q : ℕ) (name : Bytes)
    → (configure_appenders m p name as').heap.logger q
      ≡ extended m.heap p q (addresses m.heap.next_appender as')
unfolding configure_appenders configure_appender
configure_appenders_lem [] m p q name = ground (arith, append-nil (m.heap.logger q).appenders)
configure_appenders_lem (a ∷ rest) m p q name = elim (Bool-cases (has_type a)) [
  | inl typed ↦
      let (made, e) = make_appender_typed m.heap.world a typed in
      ap (λ n. (configure_appenders n p name rest).heap.logger q) (rw (e, configure_appender))
      ∙ configure_appenders_lem rest (install m p name a made) p q name
      ∙ rw (typed, install-next m p name a made) (extended_twice m p q name a made _)
  | inr untyped ↦
      ap (λ n. (configure_appenders n p name rest).heap.logger q)
        (rw (make_appender_untyped m.heap.world a untyped, configure_appender))
      ∙ configure_appenders_lem rest m p q name
      ∙ rw untyped
]

-- After a definition is applied, the logger of its name has the definition's level, and exactly
-- one new appender for each appender definition of a known type, in order, in place of the ones
-- that it had; every other logger is as it was.
pub configure_lem :
    (m : Manager) (d : LogDefine) (q : ℕ)
    → let (m', p) = get_logger m d.name in
      (configure m d).heap.logger q ≡ (
        if p == q
        then record (m'.heap.logger q) {
          level = d.level;
          appenders = addresses m'.heap.next_appender d.appenders;
        }
        else m'.heap.logger q)
unfolding configure set_level clear_appenders
configure_lem m d q =
    let (m', p) = get_logger m d.name in
    configure_appenders_lem d.appenders
      (with_heap m' (clear_appenders (set_level m'.heap p d.level) p)) p q d.name
    ∙ ground arith

retired_logger :
    (m : Manager) (name : Bytes)
    → let p = (get_logger m name).1 in
      (((retire m name).heap.logger p).level ≡ unknow)
      × (((retire m name).heap.logger p).appenders ≡ [])
unfolding retire set_level clear_appenders
retired_logger m name = ground arith

find-retire :
    (m : Manager) (name : Bytes) → find name (retire m name).loggers ≡ some (get_logger m name).1
unfolding retire
find-retire m name = rw (find-get_logger m name name, same_refl name) refl

routed_to_root :
    (cal : Calendar) (h : Heap) (l root : Logger) (level : LogLevel) (event : LogEvent)
    → l.level ≡ unknow
    → l.appenders ≡ []
    → routed cal h l root level event ≡ deliver cal h root level event
unfolding level_le
routed_to_root cal h l root level event e f = ground arith

-- A logger that the configuration drops hands every message, of any level, to the root
-- logger.
pub log-retire :
    (cal : Calendar) (m : Manager) (name : Bytes) (fuel : ℕ) (level : LogLevel) (event : LogEvent)
    → IsValid m
    → let r = retire m name in
      log cal (suc (suc fuel)) r.heap (get_logger m name).1 level event
      ≡ some (deliver cal r.heap (r.heap.logger r.root) level event)
log-retire cal m name fuel level event v =
    log-registered cal (retire m name) name (get_logger m name).1 fuel level event
      (retire-IsValid m name v) (find-retire m name)
    ∙ ap some (
        routed_to_root cal (retire m name).heap ((retire m name).heap.logger (get_logger m name).1)
          ((retire m name).heap.logger (retire m name).root) level event (retired_logger m name).0
          (retired_logger m name).1)
