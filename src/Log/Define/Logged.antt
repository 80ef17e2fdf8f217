-- ===== src/Log/Define/Logged.antt =====
-- A message to a logger whose definition has been applied.
use simple_http_server.Base.{
  ℕ, suc, ◌≡◌, refl, subst, ◌∙◌, ap, true, false, List, [], ◌∷◌, some, arith, All, Bool-cases, inl,
  inr, ◌==◌, is_empty,
}
use simple_http_server.Log.Level.{LogLevel, level_le}
use simple_http_server.Log.Event.{LogEvent}
use simple_http_server.Log.Formatter.{Calendar}
use simple_http_server.Log.Appender.{World, file, LogAppender}
use simple_http_server.Log.Logger.{Heap, log, log_each}
use simple_http_server.Log.Define.{LogAppenderDefine, LogDefine}
use simple_http_server.Log.Manager.{Manager}
use simple_http_server.Log.Manager.Invariant.{IsValid}
use simple_http_server.Log.Manager.Routing.{log-registered}
use simple_http_server.Log.Define.Settled
use simple_http_server.Log.Define.Installed.{kind_of, known, Installed, IsMadeFor}
use simple_http_server.Log.Appender.Written.{IsAllowed}
use simple_http_server.Log.Define.Output.{Serves, Served, Added, log_each-Added}

module _ (cal : Calendar) where
  Serves-made :
      (w : World) (a : LogAppenderDefine) (x : LogAppender)
      → IsAllowed w (kind_of a)
      → IsMadeFor w a x
      → Serves w a x
  Serves-made w a x allowed made = record {
    same_kind = made.kind;
    same_level = made.level;
    same_formatter = made.formatter;
    allowed = allowed;
    stays = elim (Bool-cases (a.type == 1)) [
      | inl t ↦
          let opened = made.stream t in
          let this : kind_of a ≡ file a.file = rw (t) refl in
          let can : w.can_open a.file ≡ true = (subst (IsAllowed w) this allowed).0 in
          rw (t) (opened.1 ∙ can, opened.0)
      | inr t ↦ rw (t) tt
    ];
  }

  Served-Installed :
      (ps : List ℕ) (as' : List LogAppenderDefine) (h : Heap)
      → All (λ a. IsAllowed h.world (kind_of a)) as'
      → Installed h ps as'
      → Served h ps as'
  unfolding Served Installed
  Served-Installed [] [] h c i = i
  Served-Installed [] (a ∷ rest) h c i = i
  Served-Installed (p ∷ ps) [] h c i = i
  Served-Installed (p ∷ ps) (a ∷ rest) h (c, cs) (l, made, i) =
      (Serves-made h.world a (h.appender p) c made, Served-Installed ps rest h cs i)

  is_empty-Installed :
      (ps : List ℕ) (as' : List LogAppenderDefine) (h : Heap)
      → Installed h ps as'
      → is_empty ps ≡ is_empty as'
  unfolding Installed
  is_empty-Installed [] [] h i = refl
  is_empty-Installed [] (a ∷ rest) h i = absurd (ground (arith, i))
  is_empty-Installed (p ∷ ps) [] h i = absurd (ground (arith, i))
  is_empty-Installed (p ∷ ps) (a ∷ rest) h i = refl

  -- The logger of a definition that has been applied, when it logs.
  pub log-Added :
      (m : Manager) (d : LogDefine) (fuel : ℕ) (level : LogLevel) (event : LogEvent)
      → IsValid m
      → (s : Settled.IsSettled m d)
      → All (λ a. IsAllowed m.heap.world (kind_of a)) (known d.appenders)
      → level_le d.level level ≡ true
      → is_empty (known d.appenders) ≡ false
      → (h : Heap) × (log cal (suc (suc fuel)) m.heap s.pointer level event ≡ some h)
        × Added cal m.heap.world h.world (known d.appenders) d.name level event
  log-Added m d fuel level event v s allowed pass some_appender =
      let l = m.heap.logger s.pointer in
      let named : l.name ≡ d.name = v.named d.name s.pointer s.registered in
      let own : is_empty l.appenders ≡ false =
        is_empty-Installed l.appenders (known d.appenders) m.heap s.installed ∙ some_appender in
      let passes : level_le l.level level ≡ true = ap (λ k. level_le k level) s.level_set ∙ pass in
      (
        log_each cal m.heap l.appenders d.name level event,
        log-registered cal m d.name s.pointer fuel level event v s.registered
            ∙ rw (passes, own, named) refl,
        log_each-Added cal l.appenders (known d.appenders) m.heap d.name level event
            (Served-Installed l.appenders (known d.appenders) m.heap allowed s.installed),
      )
