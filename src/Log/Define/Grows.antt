-- ===== src/Log/Define/Grows.antt =====
-- What the listener of `LogIniter` leaves as it was.
use simple_http_server.Base.{
  ℕ, ◌≤◌, ◌<◌, ◌≡◌, refl, ◌∙◌, List, [], ◌∷◌, arith, Option-cases, inl, inr, Bool-cases,
}
use simple_http_server.Base.Bytes.{Bytes}
use simple_http_server.Base.Dict.{find}
use simple_http_server.Log.Level.{LogLevel, unknow}
use simple_http_server.Log.Appender.{LogAppender}
use simple_http_server.Log.Logger.{Logger, Heap, set_level, clear_appenders, add_appender, set_root}
use simple_http_server.Log.Manager.{Manager, get_logger, get_or_create}
use simple_http_server.Log.Define.{
  LogAppenderDefine, LogDefine, make_appender, apply_formatter, install, configure_appender,
  configure_appenders, configure, retire, same_define, find_define, apply_define, apply_defines,
  remove_defines, on_defines_changed,
}

-- Appenders are made and none is changed, and what can be opened and written stays.
pub record Grows (h h' : Heap) : Type 0 where
  pub more : h.next_appender ≤ h'.next_appender
  pub kept : (q : ℕ) → q < h.next_appender → h'.appender q ≡ h.appender q
  pub same_open : h'.world.can_open ≡ h.world.can_open
  pub same_write : h'.world.can_write ≡ h.world.can_write

pub Grows-refl : (h : Heap) → Grows h h
Grows-refl h = record {
  more = omega arith;
  kept = λ q l. refl;
  same_open = refl;
  same_write = refl;
}

pub Grows-trans : {h i j : Heap} → Grows h i → Grows i j → Grows h j
Grows-trans a b = record {
  more = omega (arith, a.more, b.more);
  kept = λ q l. b.kept q (omega (arith, l, a.more)) ∙ a.kept q l;
  same_open = b.same_open ∙ a.same_open;
  same_write = b.same_write ∙ a.same_write;
}

pub install-Grows :
    (m : Manager) (p : ℕ) (name : Bytes) (a : LogAppenderDefine) (made : LogAppender)
    → Grows m.heap (install m p name a made).heap
unfolding install add_appender apply_formatter
install-Grows m p name a made = record {
  more = ground arith;
  kept = λ q l. ground (arith, l);
  same_open = ground arith;
  same_write = ground arith;
}

configure_appender-Grows :
    (m : Manager) (p : ℕ) (name : Bytes) (a : LogAppenderDefine)
    → Grows m.heap (configure_appender m p name a).heap
unfolding configure_appender
configure_appender-Grows m p name a = elim (Option-cases (make_appender m.heap.world a)) [
  | inl e ↦ rw (e, configure_appender) (Grows-refl m.heap)
  | inr (made, e) ↦ rw (e, configure_appender) (install-Grows m p name a made)
]

pub configure_appenders-Grows :
    (as' : List LogAppenderDefine) (m : Manager) (p : ℕ) (name : Bytes)
    → Grows m.heap (configure_appenders m p name as').heap
unfolding configure_appenders
configure_appenders-Grows [] m p name = Grows-refl m.heap
configure_appenders-Grows (a ∷ rest) m p name =
    Grows-trans (configure_appender-Grows m p name a)
      (configure_appenders-Grows rest (configure_appender m p name a) p name)

-- Only loggers change.
Grows-loggers :
    (h : Heap) (loggers : ℕ → Logger) (next : ℕ)
    → Grows h (record h { logger = loggers; next_logger = next })
Grows-loggers h loggers next = record {
  more = omega arith;
  kept = λ q l. refl;
  same_open = refl;
  same_write = refl;
}

get_logger-Grows : (m : Manager) (name : Bytes) → Grows m.heap (get_logger m name).0.heap
unfolding get_logger get_or_create set_root
get_logger-Grows m name = elim (Option-cases (find name m.loggers)) [
  | inl e ↦ rw (e, get_or_create) (Grows-loggers m.heap _ _)
  | inr (p, e) ↦ rw (e, get_or_create) (Grows-refl m.heap)
]

reset-Grows :
    (m : Manager) (name : Bytes) (level : LogLevel)
    → let (m', p) = get_logger m name in
      Grows m.heap (clear_appenders (set_level m'.heap p level) p)
unfolding set_level clear_appenders
reset-Grows m name level =
    Grows-trans (get_logger-Grows m name) (Grows-loggers (get_logger m name).0.heap _ _)

pub configure-Grows : (m : Manager) (d : LogDefine) → Grows m.heap (configure m d).heap
unfolding configure
configure-Grows m d =
    Grows-trans (reset-Grows m d.name d.level)
      (configure_appenders-Grows d.appenders _ (get_logger m d.name).1 d.name)

pub retire-Grows : (m : Manager) (name : Bytes) → Grows m.heap (retire m name).heap
unfolding retire
retire-Grows m name = reset-Grows m name unknow

apply_define-Grows :
    (old : List LogDefine) (m : Manager) (d : LogDefine) → Grows m.heap (apply_define old m d).heap
unfolding apply_define
apply_define-Grows old m d = elim (Option-cases (find_define d.name old)) [
  | inl e ↦ rw (e, apply_define) (configure-Grows m d)
  | inr (b, e) ↦
      rw (e, apply_define)
        (elim (Bool-cases (same_define d b)) [
          | inl eq ↦ rw eq (Grows-refl m.heap)
          | inr ne ↦ rw ne (configure-Grows m d)
        ])
]

apply_defines-Grows :
    (ds old : List LogDefine) (m : Manager) → Grows m.heap (apply_defines old m ds).heap
unfolding apply_defines
apply_defines-Grows [] old m = Grows-refl m.heap
apply_defines-Grows (d ∷ ds) old m =
    Grows-trans (apply_define-Grows old m d) (apply_defines-Grows ds old (apply_define old m d))

remove_defines-Grows :
    (ds new : List LogDefine) (m : Manager) → Grows m.heap (remove_defines new m ds).heap
unfolding remove_defines
remove_defines-Grows [] new m = Grows-refl m.heap
remove_defines-Grows (d ∷ ds) new m = elim (Option-cases (find_define d.name new)) [
  | inl e ↦
      rw (e, remove_defines)
        (Grows-trans (retire-Grows m d.name) (remove_defines-Grows ds new (retire m d.name)))
  | inr (b, e) ↦ rw (e, remove_defines) (remove_defines-Grows ds new m)
]

-- The listener makes appenders and changes none that is there.
pub on_defines_changed-Grows :
    (m : Manager) (old new : List LogDefine) → Grows m.heap (on_defines_changed m old new).heap
unfolding on_defines_changed
on_defines_changed-Grows m old new =
    Grows-trans (apply_defines-Grows new old m)
      (remove_defines-Grows old new (apply_defines old m new))
