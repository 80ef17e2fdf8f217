-- ===== src/Log/Appender/Recovery.antt =====
-- A write that fails ends a file appender for good: `reopen` closes only a stream that has not
-- failed, and opening an open stream fails.
use simple_http_server.Base.{
  ℕ, ◌≡◌, refl, Bool, true, false, not, List, [], ◌∷◌, ◌++◌, arith, ◌∙◌, Bool-cases, inl, inr, ap,
  sym, is_empty,
}
use simple_http_server.Base.Bytes.{Bytes}
use simple_http_server.Log.Level.{LogLevel, level_le}
use simple_http_server.Log.Event.{LogEvent}
use simple_http_server.Log.Formatter.{Calendar, Item, new_line, format_item, format_all, format}
use simple_http_server.Log.Appender.Streams.{IsGood, refresh-IsGood}
use simple_http_server.Log.Appender.{
  World, Stream, LogAppender, reopen_stream, reopen, log_file, put, write_file, refresh,
}

-- Open, and failed.
abbrev pub IsStuck : Stream → Type 0
IsStuck s = (s.is_open ≡ true) × (s.fail ≡ true)

reopen_stream-IsStuck :
    (w : World) (name : Bytes) (s : Stream) → IsStuck s → IsStuck (reopen_stream w name s).0
unfolding reopen_stream
reopen_stream-IsStuck w name s h = ground arith

refresh-IsStuck :
    (w : World) (name : Bytes) (a : LogAppender) (now : ℕ)
    → IsStuck a.stream
    → IsStuck (refresh w name a now).stream
unfolding reopen
refresh-IsStuck w name a now h = ground (arith, reopen_stream-IsStuck w name a.stream h)

write_file-IsStuck :
    (w : World) (name : Bytes) (a : LogAppender) (added : Bytes)
    → IsStuck a.stream
    → IsStuck (write_file w name a added).0.stream × ((write_file w name a added).1.files ≡ w.files)
unfolding write_file put
write_file-IsStuck w name a added h = ground arith

write_file_denied :
    (w : World) (name : Bytes) (a : LogAppender) (added : Bytes)
    → IsGood a.stream
    → w.can_write name ≡ false
    → is_empty added ≡ false
    → IsStuck (write_file w name a added).0.stream × ((write_file w name a added).1.files ≡ w.files)
unfolding write_file put
write_file_denied w name a added g denied some_text = ground arith

is_empty-append : (xs ys : Bytes) → is_empty ys ≡ false → is_empty (xs ++ ys) ≡ false
is_empty-append [] ys h = h
is_empty-append (x ∷ xs) ys h = refl

-- One call of `log`, and what the operating system allows at the time.
pub record Call : Type 0 where
  pub can_open : Bytes → Bool
  pub can_write : Bytes → Bool
  pub level : LogLevel
  pub event : LogEvent

module _ (cal : Calendar) (name logger : Bytes) where
  pub calls : World → LogAppender → List Call → LogAppender × World
  calls w a [] = (a, w)
  calls w a (c ∷ cs) =
      let (a', w') =
        log_file cal (record w { can_open = c.can_open; can_write = c.can_write }) name a logger
          c.level c.event in
      calls w' a' cs

  log_file-IsStuck :
      (w : World) (a : LogAppender) (level : LogLevel) (event : LogEvent)
      → IsStuck a.stream
      → let r = log_file cal w name a logger level event in
        IsStuck r.0.stream × (r.1.files ≡ w.files)
  unfolding log_file
  log_file-IsStuck w a level event h = elim (Bool-cases (level_le a.level level)) [
    | inl pass ↦
        rw (pass, log_file) (write_file-IsStuck w name _ _ (refresh-IsStuck w name a event.time h))
    | inr drop ↦ rw (drop, log_file) (h, refl)
  ]

  calls-IsStuck :
      (cs : List Call) (w : World) (a : LogAppender)
      → IsStuck a.stream
      → (calls w a cs).1.files ≡ w.files
  unfolding calls
  calls-IsStuck [] w a h = refl
  calls-IsStuck (c ∷ cs) w a h =
      let w0 : World = record w { can_open = c.can_open; can_write = c.can_write } in
      let one = log_file-IsStuck w0 a c.level c.event h in calls-IsStuck cs _ _ one.0 ∙ one.1

  format_all_new_line :
      (first rest : List Item) (level : LogLevel) (event : LogEvent)
      → is_empty (format_all cal logger level event (first ++ new_line ∷ rest)) ≡ false
  unfolding format_all format_item
  format_all_new_line [] rest level event = refl
  format_all_new_line (it ∷ first) rest level event =
      is_empty-append (format_item cal logger level event it)
        (format_all cal logger level event (first ++ new_line ∷ rest))
        (format_all_new_line first rest level event)

  -- If the file of an appender can be opened but not written while the appender's stream is open
  -- and good, and a message passes whose format has a `%n`, at which the stream is flushed, then no
  -- later call of `log`, at whatever time and whatever the operating system allows by then, changes
  -- any file, and this one does not either.
  pub failed_write_is_final :
      (w : World) (a : LogAppender) (level : LogLevel) (event : LogEvent) (first rest : List Item)
      (cs : List Call)
      → a.stream.is_open ≡ true
      → a.stream.fail ≡ false
      → w.can_open name ≡ true
      → w.can_write name ≡ false
      → level_le a.level level ≡ true
      → a.formatter.items ≡ first ++ new_line ∷ rest
      → let r = log_file cal w name a logger level event in
        (r.1.files ≡ w.files) × ((calls r.1 r.0 cs).1.files ≡ w.files)
  unfolding log_file format
  failed_write_is_final w a level event first rest cs o f can denied pass flushed =
      let good = refresh-IsGood w name a event.time (f ∙ ap not (sym o)) can (inl o) in
      let added : is_empty (format cal a.formatter logger level event) ≡ false =
        ap (λ its. is_empty (format_all cal logger level event its)) flushed
        ∙ format_all_new_line first rest level event in
      let stuck = write_file_denied w name (refresh w name a event.time) _ good denied added in
      rw (pass, log_file) (stuck.1, calls-IsStuck cs _ _ stuck.0 ∙ stuck.1)
