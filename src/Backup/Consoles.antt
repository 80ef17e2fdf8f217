-- ===== src/Backup/Consoles.antt =====
-- Loggers that write to the console, in the earlier module and in src/_log.
use simple_http_server.Base.{
  ℕ, suc, ◌≡◌, refl, sym, ap, ◌∙◌, true, false, List, [], ◌∷◌, Option, none, some, if◌then◌else◌,
  is_empty, ◌==◌, ==_iff, arith, All, subst, Bool-cases, inl, inr, update,
}
use simple_http_server.Base.Bytes.{Bytes}
use simple_http_server.Log.Level.{LogLevel, level_le}
use simple_http_server.Log.Event.{LogEvent}
use simple_http_server.Log.Formatter
use simple_http_server.Log.Formatter.{Calendar}
use simple_http_server.Log.Appender
use simple_http_server.Log.Appender.{stdout, World, print_line}
use simple_http_server.Log.Logger
use simple_http_server.Backup.Formatter.{format}
use simple_http_server.Backup.Same.{has_no_date, format_all_lem}
use simple_http_server.Backup.{LogAppender, Heap, log, log_each, log_appender, write}

-- An appender as the earlier module has it, with a formatter.
abbrev pub old_appender : Appender.LogAppender → LogAppender
old_appender x = record {
  kind = x.kind;
  level = x.level;
  formatter = some x.formatter;
  stream = x.stream;
}

-- The same appenders, and the same world.
pub record IsView (h : Logger.Heap) (o : Heap) : Type 0 where
  pub appender : (a : ℕ) → o.appender a ≡ old_appender (h.appender a)
  pub world : o.world ≡ h.world

-- An appender to the console that writes no date.
pub record IsPlain (x : Appender.LogAppender) : Type 0 where
  pub kind : x.kind ≡ stdout
  pub undated : has_no_date x.formatter.items ≡ true

module _ (cal : Calendar) (name : Bytes) (level : LogLevel) (event : LogEvent) where
  -- The world behind a plain appender.
  written : World → Appender.LogAppender → World
  written w x =
      if level_le x.level level
      then print_line w (Formatter.format cal x.formatter name level event)
      else w

  log_at_plain :
      (h : Logger.Heap) (a : ℕ)
      → IsPlain (h.appender a)
      → Logger.log_at cal h a name level event ≡ record h {
        appender = update h.appender a (h.appender a);
        world = written h.world (h.appender a);
      }
  unfolding written Appender.log_kind Appender.log_stdout
  log_at_plain h a p = elim (Bool-cases (level_le (h.appender a).level level)) [
    | inl e ↦ rw (p.kind, e) refl
    | inr e ↦ rw (p.kind, e) refl
  ]

  log_appender_plain :
      (w : World) (x : Appender.LogAppender)
      → IsPlain x
      → log_appender w (old_appender x) name level event ≡ some (old_appender x, written w x)
  unfolding written log_appender write format Formatter.format
  log_appender_plain w x p = elim (Bool-cases (level_le x.level level)) [
    | inl e ↦ rw (e, p.kind, format_all_lem cal name level event x.formatter.items p.undated) refl
    | inr e ↦ rw (e) refl
  ]

  same_at :
      (h : Logger.Heap) (o : Heap) (a b : ℕ)
      → IsView h o
      → update o.appender a (old_appender (h.appender a)) b
        ≡ old_appender (update h.appender a (h.appender a) b)
  same_at h o a b v = ground (arith, v.appender b)

  IsPlain-update :
      (h : Logger.Heap) (a : ℕ) (as' : List ℕ)
      → All (λ b. IsPlain (h.appender b)) as'
      → All (λ b. IsPlain (update h.appender a (h.appender a) b)) as'
  IsPlain-update h a [] ps = tt
  IsPlain-update h a (b ∷ bs) (p, ps) = (
    elim (Bool-cases (a == b)) [ inl e ↦ rw (e) (rw ((==_iff a b).0 e) p) | inr e ↦ rw (e) p ],
    IsPlain-update h a bs ps,
  )

  log_each_next :
      (o : Heap) (a : ℕ) (as' : List ℕ) (x : LogAppender) (w : World)
      → log_appender o.world (o.appender a) name level event ≡ some (x, w)
      → log_each o (a ∷ as') name level event
        ≡ log_each (record o { appender = update o.appender a x; world = w }) as' name level event
  unfolding log_each
  log_each_next o a as' x w e =
      ap
        (λ r. elim r as (λ z. Option Heap) [
          | none ↦ none
          | some q ↦
              log_each (record o { appender = update o.appender a q.0; world = q.1 }) as' name level
                event
        ])
        e

  log_each-IsView :
      (as' : List ℕ) (h : Logger.Heap) (o : Heap)
      → IsView h o
      → All (λ a. IsPlain (h.appender a)) as'
      → (o' : Heap) × (log_each o as' name level event ≡ some o')
        × IsView (Logger.log_each cal h as' name level event) o'
  unfolding log_each Logger.log_each
  log_each-IsView [] h o v ps = (o, refl, v)
  log_each-IsView (a ∷ as') h o v (p, ps) =
      let w = written h.world (h.appender a) in
      let h' : Logger.Heap = record h {
        appender = update h.appender a (h.appender a);
        world = w;
      } in
      let o' : Heap = record o {
        appender = update o.appender a (old_appender (h.appender a));
        world = w;
      } in
      let e : log_appender o.world (o.appender a) name level event
          ≡ some (old_appender (h.appender a), w) =
        ap (λ z. log_appender z (o.appender a) name level event) v.world
        ∙ (ap (λ z. log_appender h.world z name level event) (v.appender a)
            ∙ log_appender_plain h.world (h.appender a) p) in
      let (last, q, view) =
        log_each-IsView as' h' o' (record { appender = λ b. same_at h o a b v; world = refl })
          (IsPlain-update h a as' ps) in
      (
        last,
        log_each_next o a as' (old_appender (h.appender a)) w e ∙ q,
        subst (λ k. IsView (Logger.log_each cal k as' name level event) last)
            (sym (log_at_plain h a p)) view,
      )

-- A logger has the same name, level and appenders in the earlier module and in the one in
-- src/_log, and at least one appender; its appenders write to the console with the same
-- formatters, none of which writes a date. Then `Logger::log` of both modules, in the earlier one
-- with no null pointer, comes back and leaves the same console and the same appenders.
pub log-IsView :
    (cal : Calendar) (fuel : ℕ) (h : Logger.Heap) (o : Heap) (p : ℕ) (level : LogLevel)
    (event : LogEvent)
    → IsView h o
    → o.logger p ≡ record {
      name = (h.logger p).name;
      level = (h.logger p).level;
      appenders = (h.logger p).appenders;
    }
    → is_empty (h.logger p).appenders ≡ false
    → All (λ a. IsPlain (h.appender a)) (h.logger p).appenders
    → (h' : Logger.Heap) × (Logger.log cal (suc fuel) h p level event ≡ some h')
      × (o' : Heap) × (log o p level event ≡ some o')
      × IsView h' o'
unfolding log Logger.log Logger.log_or_root
log-IsView cal fuel h o p level event v same some_left ps =
    elim (Bool-cases (level_le (h.logger p).level level)) [
      | inl e ↦
          let l = h.logger p in
          let (o', q, v') = log_each-IsView cal l.name level event l.appenders h o v ps in
          (
            Logger.log_each cal h l.appenders l.name level event,
            rw (e, some_left) refl,
            o',
            rw (same, e) q,
            v',
          )
      | inr e ↦ (h, rw (e) refl, o, rw (same, e) refl, v)
    ]
