-- ===== src/Log/Manager/Routing.antt =====
-- Where a message goes: to the logger's own appenders, or to the root logger's.
use simple_http_server.Base.{ℕ, suc, ◌≡◌, ◌∙◌, ap, none, some, arith, if◌then◌else◌, is_empty}
use native.Mathlib.Decide.{ℕ_discrete}
use simple_http_server.Base.Bytes.{Bytes}
use simple_http_server.Base.Dict.{find}
use simple_http_server.Log.Level.{LogLevel, level_le}
use simple_http_server.Log.Event.{LogEvent, stream_text, new_event}
use simple_http_server.Log.Formatter.{Calendar}
use simple_http_server.Log.Logger.{
  Logger, Heap, Site, site_event, log, log_each, log_or_root, log_stream,
}
use simple_http_server.Log.Manager.{Manager}
use simple_http_server.Log.Manager.Invariant.{IsValid}

module _ (cal : Calendar) where
  -- The appenders of one logger, if it lets the level pass.
  abbrev pub deliver : Heap → Logger → LogLevel → LogEvent → Heap
  deliver h l level event =
      if level_le l.level level then log_each cal h l.appenders l.name level event else h

  -- A logger with no appenders of its own hands what passes its level to the root logger.
  abbrev pub routed : Heap → Logger → Logger → LogLevel → LogEvent → Heap
  routed h l root level event =
      if level_le l.level level
      then (if is_empty l.appenders then deliver h root level event else deliver h l level event)
      else h

  or_root-none :
      (h : Heap) (l : Logger) (level : LogLevel) (event : LogEvent)
      → log_or_root cal h l (some h) level event
        ≡ some (log_each cal h l.appenders l.name level event)
  unfolding log_or_root log_each
  or_root-none h l level event = ground arith

  log-no_root :
      (fuel : ℕ) (h : Heap) (p : ℕ) (level : LogLevel) (event : LogEvent)
      → (h.logger p).root ≡ none
      → log cal (suc fuel) h p level event ≡ some (deliver h (h.logger p) level event)
  unfolding log
  log-no_root fuel h p level event e = ground (arith, or_root-none h (h.logger p) level event)

  deliver-routed :
      (h : Heap) (l : Logger) (level : LogLevel) (event : LogEvent)
      → deliver h l level event ≡ routed h l l level event
  deliver-routed h l level event = ground arith

  log-root :
      (fuel : ℕ) (h : Heap) (p r : ℕ) (level : LogLevel) (event : LogEvent)
      → (h.logger p).root ≡ some r
      → (h.logger r).root ≡ none
      → log cal (suc (suc fuel)) h p level event
        ≡ some (routed h (h.logger p) (h.logger r) level event)
  unfolding log log_or_root
  log-root fuel h p r level event e f = ground (arith, log-no_root fuel h r level event f)

  -- In a valid registry `Logger::log` of a registered logger comes back, with two levels of calls
  -- at most: what passes the logger's level goes to its own appenders, or if it has none to those
  -- of the root logger at the root's level; anything else goes nowhere.
  pub log-registered :
      (m : Manager) (name : Bytes) (p fuel : ℕ) (level : LogLevel) (event : LogEvent)
      → IsValid m
      → find name m.loggers ≡ some p
      → log cal (suc (suc fuel)) m.heap p level event
        ≡ some (routed m.heap (m.heap.logger p) (m.heap.logger m.root) level event)
  log-registered m name p fuel level event v e = elim (ℕ_discrete p m.root) [
    | yes at_root ↦ rw at_root (
        log-no_root (suc fuel) m.heap m.root level event v.root_has_no_root
        ∙ ap some (deliver-routed m.heap (m.heap.logger m.root) level event))
    | no other ↦
        log-root fuel m.heap p m.root level event (v.rooted name p e other) v.root_has_no_root
  ]

  -- The level test in the macros is the logger's own: with or without it the message goes the
  -- same way.
  pub log_stream-log :
      (fuel : ℕ) (h : Heap) (p : ℕ) (level : LogLevel) (site : Site) (text : Bytes)
      → log_stream cal (suc fuel) h p level site text
        ≡ log cal (suc fuel) h p level (stream_text (site_event p level site) text)
  unfolding log_stream log stream_text new_event
  log_stream-log fuel h p level site text = ground arith
