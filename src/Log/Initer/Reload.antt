-- ===== src/Log/Initer/Reload.antt =====
-- The loggers after texts have been loaded into the variable "logs".
use simple_http_server.Base.{
  ℕ, ◌+◌, ◌%◌, ◌^◌, ◌≡◌, refl, sym, subst, ◌∙◌, ap, Bool, true, false, List, [], ◌∷◌, Bool-cases,
  Option-cases, is_empty, if◌then◌else◌, inl, inr,
}
use simple_http_server.Base.Bytes.{Bytes, codes}
use simple_http_server.Log.Level.{LogLevel, info, level_le}
use simple_http_server.Log.Event.{LogEvent, stream_text}
use simple_http_server.Log.Formatter.{Calendar}
use simple_http_server.Log.Appender.Written.{log_kind-Kept}
use simple_http_server.Log.Logger.{Logger, Heap, Site, log_each, site_event}
use simple_http_server.Log.Manager.{Manager, root_name}
use simple_http_server.Log.Manager.Invariant.{IsValid}
use simple_http_server.Log.Manager.Routing.{deliver, routed, log-registered, log_stream-log}
use simple_http_server.Log.Define.{LogDefine, with_heap, on_defines_changed, on_logger_conf_changed}
use simple_http_server.Log.Define.Frame.{Keeps, Keeps-IsValid, on_defines_changed-IsValid}
use simple_http_server.Config.Var.{
  done, Setting, ConfigVar, from_string, set_value, caught, add_listener, insert_listener, new_var,
}
use simple_http_server.Config.Var.Changes.{Heard, none_left, one_more, set_value-Heard}
use simple_http_server.Config.Cast.{YamlList}
use simple_http_server.Log.Define.Text.{YamlText}
use simple_http_server.Log.Initer.{
  logs_setting, log_defines, conf_listener, log_initer, load_each, returned,
}

-- Logging changes no logger and no permission.
pub record SameLoggers (h h' : Heap) : Type 0 where
  pub same_logger : h'.logger ≡ h.logger
  pub same_bound : h'.next_logger ≡ h.next_logger
  pub same_next : h'.next_appender ≡ h.next_appender
  pub same_open : h'.world.can_open ≡ h.world.can_open
  pub same_write : h'.world.can_write ≡ h.world.can_write

module _ (cal : Calendar) where
  log_each-SameLoggers :
      (as' : List ℕ) (h : Heap) (name : Bytes) (level : LogLevel) (event : LogEvent)
      → SameLoggers h (log_each cal h as' name level event)
  unfolding log_each
  log_each-SameLoggers [] h name level event = record {
    same_logger = refl;
    same_bound = refl;
    same_next = refl;
    same_open = refl;
    same_write = refl;
  }
  log_each-SameLoggers (a ∷ rest) h name level event =
      let r = log_each-SameLoggers rest _ name level event in
      let x = h.appender a in
      let kept = log_kind-Kept cal x.kind h.world x name level event in
      record {
        same_logger = r.same_logger;
        same_bound = r.same_bound;
        same_next = r.same_next;
        same_open = r.same_open ∙ kept.same_open;
        same_write = r.same_write ∙ kept.same_write;
      }

  SameLoggers-refl : (h : Heap) → SameLoggers h h
  SameLoggers-refl h = record {
    same_logger = refl;
    same_bound = refl;
    same_next = refl;
    same_open = refl;
    same_write = refl;
  }

  SameLoggers-if :
      (b : Bool) {h x y : Heap}
      → SameLoggers h x
      → SameLoggers h y
      → SameLoggers h (if b then x else y)
  SameLoggers-if true hx hy = hx
  SameLoggers-if false hx hy = hy

  deliver-SameLoggers :
      (h : Heap) (l : Logger) (level : LogLevel) (event : LogEvent)
      → SameLoggers h (deliver cal h l level event)
  deliver-SameLoggers h l level event =
      SameLoggers-if (level_le l.level level)
        (log_each-SameLoggers l.appenders h l.name level event) (SameLoggers-refl h)

  routed-SameLoggers :
      (h : Heap) (l root : Logger) (level : LogLevel) (event : LogEvent)
      → SameLoggers h (routed cal h l root level event)
  routed-SameLoggers h l root level event =
      SameLoggers-if (level_le l.level level)
        (SameLoggers-if (is_empty l.appenders) (deliver-SameLoggers h root level event)
          (deliver-SameLoggers h l level event))
        (SameLoggers-refl h)

  module _ (site : Site) where
    -- In a valid registry the message to the root logger comes back and changes no logger.
    pub conf_listener_lem :
        (old new : List LogDefine) (m : Manager)
        → IsValid m
        → (h : Heap) × SameLoggers m.heap h
          × (conf_listener cal site old new m ≡ done (on_defines_changed (with_heap m h) old new))
    unfolding conf_listener on_logger_conf_changed returned
    conf_listener_lem old new m v =
        let l = m.heap.logger m.root in
        let text = codes "on_logger_conf_changed" in
        let event = stream_text (site_event m.root info site) text in
        let there =
          log_stream-log cal 1 m.heap m.root info site text
          ∙ log-registered cal m root_name m.root 0 info event v v.root_registered in
        (
          routed cal m.heap l l info event,
          routed-SameLoggers m.heap l l info event,
          rw (there, conf_listener, on_logger_conf_changed, returned) refl,
        )

pub SameLoggers-Keeps : (m : Manager) (h : Heap) → SameLoggers m.heap h → Keeps m (with_heap m h)
SameLoggers-Keeps m h s = record {
  same_root = refl;
  same_loggers = refl;
  same_bound = s.same_bound;
  same_names = λ p. ap (λ f. (f p).name) s.same_logger;
  same_roots = λ p. ap (λ f. (f p).root) s.same_logger;
}

module _ (cal : Calendar) (site : Site) where
  listener-IsValid :
      (old new : List LogDefine) (m : Manager)
      → IsValid m
      → (m' : Manager) × IsValid m' × (conf_listener cal site old new m ≡ done m')
  listener-IsValid old new m v =
      let (h, s, e) = conf_listener_lem cal site old new m v in
      (
        on_defines_changed (with_heap m h) old new,
        on_defines_changed-IsValid (with_heap m h) old new
            (Keeps-IsValid (SameLoggers-Keeps m h s) v),
        e,
      )

  -- The variable has the listener of `LogIniter` and no other.
  abbrev pub Listens : ConfigVar (List LogDefine) Manager → Type 0
  Listens v = (key : ℕ) × (v.listeners ≡ (key, conf_listener cal site) ∷ [])

  -- The state is one that loading may reach.
  abbrev Ready : ConfigVar (List LogDefine) Manager × Manager × Bool → Type 0
  Ready r = Listens r.0 × IsValid r.1

  set_value-Ready :
      (s : Setting (List LogDefine) Manager) (v : ConfigVar (List LogDefine) Manager) (m : Manager)
      (text : Bytes) (new : List LogDefine)
      → Listens v
      → IsValid m
      → Ready (caught s text (set_value s v new m))
  unfolding set_value
  set_value-Ready s v m text new (key, ls) ok = elim (Bool-cases (s.same_value v.value new)) [
    | inl same ↦ rw (same) (unfold caught in ((key, ls), ok))
    | inr differs ↦
        let (m', ok', e) = listener-IsValid v.value new m ok in
        let heard : Heard v.value new v.listeners m m' = rw (ls) (one_more e none_left) in
        subst (λ r. Ready (caught s text r)) (sym (set_value-Heard s v new m m' differs heard))
          (unfold caught in ((key, ls), ok'))
  ]

  from_string-Ready :
      (s : Setting (List LogDefine) Manager) (v : ConfigVar (List LogDefine) Manager) (m : Manager)
      (text : Bytes)
      → ((name t : Bytes) (n : Manager) → IsValid n → IsValid (s.report name t n))
      → Listens v
      → IsValid m
      → Ready (from_string s v text m)
  unfolding from_string
  from_string-Ready s v m text reports ls ok = elim (Option-cases (s.from_text text)) [
    | inl e ↦ rw (e, from_string) (ls, reports v.name text m ok)
    | inr (new, e) ↦ rw (e, from_string) (set_value-Ready s v m text new ls ok)
  ]

  load_each-Ready :
      (s : Setting (List LogDefine) Manager) (v : ConfigVar (List LogDefine) Manager) (m : Manager)
      (texts : List Bytes)
      → ((name t : Bytes) (n : Manager) → IsValid n → IsValid (s.report name t n))
      → Listens v
      → IsValid m
      → IsValid (load_each s v m texts).1
  unfolding load_each
  load_each-Ready s v m [] reports ls ok = ok
  load_each-Ready s v m (text ∷ texts) reports ls ok =
      let (ls', ok') = from_string-Ready s v m text reports ls ok in
      let r = from_string s v text m in load_each-Ready s r.0 r.1 texts reports ls' ok'

  pub log_initer-Listens : (last_id : ℕ) → Listens (log_initer cal site log_defines last_id).0
  unfolding log_initer add_listener insert_listener log_defines new_var
  log_initer-Listens last_id = ((last_id + 1) % 2 ^ 64, refl)

  -- When the listener of `LogIniter` is set up, a valid registry of loggers stays valid whatever
  -- texts are loaded into the variable "logs" one after the other, be they definitions or not, if
  -- the message about a text that cannot be read keeps a registry valid.
  pub load_each-IsValid :
      (lists : YamlList) (yaml : YamlText) (report : Bytes → Bytes → Manager → Manager)
      (last_id : ℕ) (m : Manager) (texts : List Bytes)
      → ((name text : Bytes) (n : Manager) → IsValid n → IsValid (report name text n))
      → IsValid m
      → IsValid
          (load_each
            (logs_setting lists yaml report)
            (log_initer cal site log_defines last_id).0
            m
            texts).1
  load_each-IsValid lists yaml report last_id m texts reports ok =
      load_each-Ready (logs_setting lists yaml report) _ m texts reports
        (log_initer-Listens last_id) ok
