-- ===== src/Log/Define/Output.antt =====
-- What the loggers write once `LogIniter` has set them up, in terms of the definitions alone.
use simple_http_server.Base.{
  ℕ, ◌≡◌, sym, subst, ◌∙◌, ap, true, false, List, [], ◌∷◌, ◌++◌, arith, Bool-cases, inl, inr,
  if◌then◌else◌, ◌==◌, ==_iff, append-nil, append_assoc,
}
use simple_http_server.Base.Bytes.{Bytes}
use simple_http_server.Log.Level.{LogLevel, level_le}
use simple_http_server.Log.Event.{LogEvent}
use simple_http_server.Log.Formatter.{Calendar, format}
use simple_http_server.Log.Appender.{
  World, AppenderKind, stdout, file, LogAppender, log_kind, log_appender,
}
use simple_http_server.Log.Logger.{Heap, log_at, log_each}
use simple_http_server.Log.Define.{LogAppenderDefine}
use simple_http_server.Log.Define.Installed.{kind_of, used_formatter}
use simple_http_server.Log.Appender.Written.{
  IsAllowed, printed, filed, IsOpen, Kept, log_kind-Kept, log_kind-Wrote, log_kind-Silent,
}

-- The appender does what the definition asks for.
pub record Serves (w : World) (a : LogAppenderDefine) (x : LogAppender) : Type 0 where
  pub same_kind : x.kind ≡ kind_of a
  pub same_level : x.level ≡ a.level
  pub same_formatter : x.formatter ≡ used_formatter a
  pub allowed : IsAllowed w (kind_of a)
  pub stays : IsOpen (kind_of a) x

unfoldable pub Served : Heap → List ℕ → List LogAppenderDefine → Type 0
Served h [] [] = Unit
Served h [] (a ∷ rest) = true ≡ false
Served h (p ∷ ps) [] = true ≡ false
Served h (p ∷ ps) (a ∷ rest) = Serves h.world a (h.appender p) × Served h ps rest

module _ (cal : Calendar) where
  -- What the appenders of the definitions add to the console and to a file for one message: each
  -- that lets the level pass, in order, what its formatter makes of the message.
  abbrev shown : LogAppenderDefine → (Bytes → Bytes) → Bytes → LogLevel → LogEvent → Bytes
  shown a put_text logger level event =
      if level_le a.level level
      then put_text (format cal (used_formatter a) logger level event)
      else []

  unfoldable pub console_of : List LogAppenderDefine → Bytes → LogLevel → LogEvent → Bytes
  console_of [] logger level event = []
  console_of (a ∷ rest) logger level event =
      shown a (printed (kind_of a)) logger level event ++ console_of rest logger level event

  unfoldable pub file_of : Bytes → List LogAppenderDefine → Bytes → LogLevel → LogEvent → Bytes
  file_of other [] logger level event = []
  file_of other (a ∷ rest) logger level event =
      shown a (filed other (kind_of a)) logger level event ++ file_of other rest logger level event

  IsAllowed-Kept :
      (k : AppenderKind) (w v : World) (x y : LogAppender)
      → Kept w v x y
      → IsAllowed w k
      → IsAllowed v k
  IsAllowed-Kept stdout w v x y kept c = tt
  IsAllowed-Kept (file name) w v x y kept (o, p) =
      (ap (λ f. f name) kept.same_open ∙ o, ap (λ f. f name) kept.same_write ∙ p)

  record Step (w v : World) (a : LogAppenderDefine) (y : LogAppender) (logger : Bytes)
      (level : LogLevel) (event : LogEvent) : Type 0 where
    console : v.console ≡ w.console ++ shown a (printed (kind_of a)) logger level event
    files :
        (other : Bytes)
        → v.files other ≡ w.files other ++ shown a (filed other (kind_of a)) logger level event
    stays : IsOpen (kind_of a) y

  -- One appender writes what its definition asks for.
  log_appender-Step :
      (w : World) (a : LogAppenderDefine) (x : LogAppender) (logger : Bytes) (level : LogLevel)
      (event : LogEvent)
      → Serves w a x
      → let r = log_appender cal w x logger level event in Step w r.1 a r.0 logger level event
  log_appender-Step w a x logger level event s =
      subst
        (λ k. let r = log_kind cal k w x logger level event in Step w r.1 a r.0 logger level event)
        (sym s.same_kind)
        (elim (Bool-cases (level_le a.level level)) [
          | inl pass ↦
              let wrote =
                log_kind-Wrote cal (kind_of a) w x logger level event s.allowed s.stays
                  (ap (λ l. level_le l level) s.same_level ∙ pass) in
              let text : format cal x.formatter logger level event
                  ≡ format cal (used_formatter a) logger level event =
                ap (λ f. format cal f logger level event) s.same_formatter in
              record {
                console =
                    rw (pass) (wrote.console ∙ ap (λ t. w.console ++ printed (kind_of a) t) text);
                files = λ other.
                    rw (pass) (
                      wrote.files other
                      ∙ ap (λ t. w.files other ++ filed other (kind_of a) t) text);
                stays = wrote.stays;
              }
          | inr stop ↦
              let silent =
                log_kind-Silent cal (kind_of a) w x logger level event s.stays
                  (ap (λ l. level_le l level) s.same_level ∙ stop) in
              record {
                console = rw (stop) (silent.console ∙ sym (append-nil w.console));
                files = λ other. rw (stop) (silent.files other ∙ sym (append-nil (w.files other)));
                stays = silent.stays;
              }
        ])

  Serves-log_appender :
      (w : World) (a : LogAppenderDefine) (x : LogAppender) (logger : Bytes) (level : LogLevel)
      (event : LogEvent)
      → Serves w a x
      → let r = log_appender cal w x logger level event in Serves r.1 a r.0
  Serves-log_appender w a x logger level event s =
      let kept = log_kind-Kept cal x.kind w x logger level event in
      record {
        same_kind = kept.same_kind ∙ s.same_kind;
        same_level = kept.same_level ∙ s.same_level;
        same_formatter = kept.same_formatter ∙ s.same_formatter;
        allowed = IsAllowed-Kept (kind_of a) _ _ _ _ kept s.allowed;
        stays = (log_appender-Step w a x logger level event s).stays;
      }

  Serves-Kept :
      (w v : World) (a : LogAppenderDefine) (x y z : LogAppender)
      → Kept w v y z
      → Serves w a x
      → Serves v a x
  Serves-Kept w v a x y z kept s = record {
    same_kind = s.same_kind;
    same_level = s.same_level;
    same_formatter = s.same_formatter;
    allowed = IsAllowed-Kept (kind_of a) w v y z kept s.allowed;
    stays = s.stays;
  }

  Serves-log_at :
      (h : Heap) (p q : ℕ) (a : LogAppenderDefine) (logger : Bytes) (level : LogLevel)
      (event : LogEvent)
      → Serves h.world a (h.appender q)
      → let h' = log_at cal h p logger level event in Serves h'.world a (h'.appender q)
  Serves-log_at h p q a logger level event s = elim (Bool-cases (p == q)) [
    | inl at ↦
        let same_p = (==_iff p q).0 at in
        rw (at) (
          Serves-log_appender h.world a (h.appender p) logger level event
            (subst (λ k. Serves h.world a (h.appender k)) (sym same_p) s))
    | inr far ↦ rw (far) (
        Serves-Kept h.world _ a (h.appender q) _ _
          (log_kind-Kept cal (h.appender p).kind h.world (h.appender p) logger level event) s)
  ]

  Served-log_at :
      (ps : List ℕ) (as' : List LogAppenderDefine) (h : Heap) (p : ℕ) (logger : Bytes)
      (level : LogLevel) (event : LogEvent)
      → Served h ps as'
      → Served (log_at cal h p logger level event) ps as'
  unfolding Served
  Served-log_at [] [] h p logger level event s = s
  Served-log_at [] (a ∷ rest) h p logger level event s = s
  Served-log_at (q ∷ ps) [] h p logger level event s = s
  Served-log_at (q ∷ ps) (a ∷ rest) h p logger level event (s, ss) =
      (Serves-log_at h p q a logger level event s, Served-log_at ps rest h p logger level event ss)

  -- What one message adds.
  pub record Added (w v : World) (as' : List LogAppenderDefine) (logger : Bytes) (level : LogLevel)
      (event : LogEvent) : Type 0 where
    pub console : v.console ≡ w.console ++ console_of as' logger level event
    pub files :
        (other : Bytes) → v.files other ≡ w.files other ++ file_of other as' logger level event

  pub log_each-Added :
      (ps : List ℕ) (as' : List LogAppenderDefine) (h : Heap) (logger : Bytes) (level : LogLevel)
      (event : LogEvent)
      → Served h ps as'
      → Added h.world (log_each cal h ps logger level event).world as' logger level event
  unfolding log_each Served console_of file_of
  log_each-Added [] [] h logger level event s = record {
    console = sym (append-nil h.world.console);
    files = λ other. sym (append-nil (h.world.files other));
  }
  log_each-Added [] (a ∷ rest) h logger level event s = absurd (ground (arith, s))
  log_each-Added (p ∷ ps) [] h logger level event s = absurd (ground (arith, s))
  log_each-Added (p ∷ ps) (a ∷ rest) h logger level event (s, ss) =
      let first = log_appender-Step h.world a (h.appender p) logger level event s in
      let more =
        log_each-Added ps rest (log_at cal h p logger level event) logger level event
          (Served-log_at ps rest h p logger level event ss) in
      record {
        console =
            more.console
            ∙ ap (λ t. t ++ console_of rest logger level event) first.console
            ∙ append_assoc h.world.console _ _;
        files = λ other.
            more.files other
            ∙ ap (λ t. t ++ file_of other rest logger level event) (first.files other)
            ∙ append_assoc (h.world.files other) _ _;
      }
