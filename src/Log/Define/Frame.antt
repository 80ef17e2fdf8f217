-- ===== src/Log/Define/Frame.antt =====
-- Setting levels and appenders keeps the registry of loggers valid.
use simple_http_server.Base.{
  ℕ, ◌≡◌, refl, ◌∙◌, List, [], ◌∷◌, arith, Option-cases, inl, inr, Bool-cases,
}
use simple_http_server.Base.Bytes.{Bytes}
use simple_http_server.Log.Level.{LogLevel}
use simple_http_server.Log.Appender.{LogAppender}
use simple_http_server.Log.Logger.{set_level, clear_appenders, add_appender}
use simple_http_server.Log.Manager.{Manager, get_logger}
use simple_http_server.Log.Manager.Invariant.{IsValid, get_logger-IsValid}
use simple_http_server.Log.Define.{
  LogAppenderDefine, LogDefine, find_define, make_appender, install, configure_appender,
  configure_appenders, with_heap, configure, same_define, apply_define, apply_defines, retire,
  remove_defines, on_defines_changed,
}

-- The registry is the same, and so are each logger's name and root.
pub record Keeps (m n : Manager) : Type 0 where
  pub same_root : n.root ≡ m.root
  pub same_loggers : n.loggers ≡ m.loggers
  pub same_bound : n.heap.next_logger ≡ m.heap.next_logger
  pub same_names : (p : ℕ) → (n.heap.logger p).name ≡ (m.heap.logger p).name
  pub same_roots : (p : ℕ) → (n.heap.logger p).root ≡ (m.heap.logger p).root

Keeps-refl : (m : Manager) → Keeps m m
Keeps-refl m = record {
  same_root = refl;
  same_loggers = refl;
  same_bound = refl;
  same_names = λ p. refl;
  same_roots = λ p. refl;
}

Keeps-trans : {m n o : Manager} → Keeps m n → Keeps n o → Keeps m o
Keeps-trans a b = record {
  same_root = b.same_root ∙ a.same_root;
  same_loggers = b.same_loggers ∙ a.same_loggers;
  same_bound = b.same_bound ∙ a.same_bound;
  same_names = λ p. b.same_names p ∙ a.same_names p;
  same_roots = λ p. b.same_roots p ∙ a.same_roots p;
}

pub Keeps-IsValid : {m n : Manager} → Keeps m n → IsValid m → IsValid n
Keeps-IsValid {m} {n} k v = record {
  root_allocated = rw (k.same_root, k.same_bound) v.root_allocated;
  root_registered = rw (k.same_root, k.same_loggers) v.root_registered;
  root_has_no_root = rw (k.same_root) (k.same_roots m.root ∙ v.root_has_no_root);
  allocated = λ name p e. rw k.same_bound (v.allocated name p (rw k.same_loggers at e));
  named = λ name p e. k.same_names p ∙ v.named name p (rw k.same_loggers at e);
  rooted = λ name p e ne.
      rw k.same_root
        (k.same_roots p ∙ v.rooted name p (rw k.same_loggers at e) (rw k.same_root at ne));
}

set-clear-Keeps :
    (m : Manager) (p : ℕ) (level : LogLevel)
    → Keeps m (with_heap m (clear_appenders (set_level m.heap p level) p))
unfolding clear_appenders set_level
set-clear-Keeps m p level = record {
  same_root = refl;
  same_loggers = refl;
  same_bound = refl;
  same_names = λ q. ground arith;
  same_roots = λ q. ground arith;
}

install-Keeps :
    (m : Manager) (p : ℕ) (name : Bytes) (a : LogAppenderDefine) (made : LogAppender)
    → Keeps m (install m p name a made)
unfolding install add_appender
install-Keeps m p name a made = record {
  same_root = refl;
  same_loggers = refl;
  same_bound = refl;
  same_names = λ q. ground arith;
  same_roots = λ q. ground arith;
}

configure_appender-Keeps :
    (m : Manager) (p : ℕ) (name : Bytes) (a : LogAppenderDefine)
    → Keeps m (configure_appender m p name a)
unfolding configure_appender
configure_appender-Keeps m p name a = elim (Option-cases (make_appender m.heap.world a)) [
  | inl e ↦ rw (e, configure_appender) (Keeps-refl m)
  | inr (made, e) ↦ rw (e, configure_appender) (install-Keeps m p name a made)
]

configure_appenders-Keeps :
    (as' : List LogAppenderDefine) (m : Manager) (p : ℕ) (name : Bytes)
    → Keeps m (configure_appenders m p name as')
unfolding configure_appenders
configure_appenders-Keeps [] m p name = Keeps-refl m
configure_appenders-Keeps (a ∷ rest) m p name =
    Keeps-trans (configure_appender-Keeps m p name a)
      (configure_appenders-Keeps rest (configure_appender m p name a) p name)

-- Beyond what `getLogger` does.
pub configure-Keeps : (m : Manager) (d : LogDefine) → Keeps (get_logger m d.name).0 (configure m d)
unfolding configure
configure-Keeps m d =
    Keeps-trans (set-clear-Keeps (get_logger m d.name).0 (get_logger m d.name).1 d.level)
      (configure_appenders-Keeps d.appenders _ (get_logger m d.name).1 d.name)

pub configure-IsValid : (m : Manager) (d : LogDefine) → IsValid m → IsValid (configure m d)
configure-IsValid m d v = Keeps-IsValid (configure-Keeps m d) (get_logger-IsValid m d.name v)

pub apply_define-IsValid :
    (old : List LogDefine) (m : Manager) (d : LogDefine)
    → IsValid m
    → IsValid (apply_define old m d)
unfolding apply_define
apply_define-IsValid old m d v = elim (Option-cases (find_define d.name old)) [
  | inl e ↦ rw (e, apply_define) (configure-IsValid m d v)
  | inr (b, e) ↦
      rw (e, apply_define)
        (elim (Bool-cases (same_define d b)) [
          | inl eq ↦ rw eq v
          | inr ne ↦ rw ne (configure-IsValid m d v)
        ])
]

pub apply_defines-IsValid :
    (ds old : List LogDefine) (m : Manager) → IsValid m → IsValid (apply_defines old m ds)
unfolding apply_defines
apply_defines-IsValid [] old m v = v
apply_defines-IsValid (d ∷ ds) old m v =
    apply_defines-IsValid ds old (apply_define old m d) (apply_define-IsValid old m d v)

pub retire-Keeps : (m : Manager) (name : Bytes) → Keeps (get_logger m name).0 (retire m name)
unfolding retire
retire-Keeps m name = set-clear-Keeps _ _ _

pub retire-IsValid : (m : Manager) (name : Bytes) → IsValid m → IsValid (retire m name)
retire-IsValid m name v = Keeps-IsValid (retire-Keeps m name) (get_logger-IsValid m name v)

remove_defines-IsValid :
    (ds new : List LogDefine) (m : Manager) → IsValid m → IsValid (remove_defines new m ds)
unfolding remove_defines
remove_defines-IsValid [] new m v = v
remove_defines-IsValid (d ∷ ds) new m v = elim (Option-cases (find_define d.name new)) [
  | inl e ↦
      rw (e, remove_defines)
        (remove_defines-IsValid ds new (retire m d.name) (retire-IsValid m d.name v))
  | inr (b, e) ↦ rw (e, remove_defines) (remove_defines-IsValid ds new m v)
]

-- Whatever the old and the new definitions are, the listener keeps the registry valid.
pub on_defines_changed-IsValid :
    (m : Manager) (old new : List LogDefine) → IsValid m → IsValid (on_defines_changed m old new)
unfolding on_defines_changed
on_defines_changed-IsValid m old new v =
    remove_defines-IsValid old new (apply_defines old m new) (apply_defines-IsValid new old m v)
