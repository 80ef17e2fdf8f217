-- ===== src/Log/Appender/Streams.antt =====
-- When a file appender's stream is usable.
use simple_http_server.Base.{
  ℕ, ◌≡◌, true, false, not, [], ◌∷◌, ◌++◌, if◌then◌else◌, arith, ◌⊎◌, inl, inr, refl, append-nil,
  ap, sym, ◌∙◌,
}
use simple_http_server.Base.Bytes.{Bytes, same}
use simple_http_server.Log.Level.{LogLevel, level_le}
use simple_http_server.Log.Event.{LogEvent}
use simple_http_server.Log.Formatter.{Calendar, format, new_formatter, default_pattern}
use simple_http_server.Log.Appender.{
  World, Stream, LogAppender, AppenderKind, stdout, file, new_appender, new_stdout_appender,
  new_file_appender, reopen_stream, reopen, log_file, put, write_file, refresh, is_due, new_stream,
}

-- The stream is good exactly while its file is open.
abbrev pub IsSettled : Stream → Type 0
IsSettled s = s.fail ≡ not s.is_open

-- A settled stream is good after `reopen` exactly if the file can be opened, which is what
-- `reopen` returns; so is the stream that the constructor opens. The stream is settled again.
pub reopen_stream-IsSettled :
    (w : World) (name : Bytes) (s : Stream)
    → (IsSettled s ⊎ (s ≡ new_stream))
    → IsSettled (reopen_stream w name s).0
      × ((reopen_stream w name s).1 ≡ w.can_open name)
      × ((reopen_stream w name s).0.is_open ≡ w.can_open name)
unfolding reopen_stream
reopen_stream-IsSettled w name s h = ground arith

abbrev pub IsGood : Stream → Type 0
IsGood s = (s.fail ≡ false) × (s.is_open ≡ true)

put_good :
    (w : World) (name other : Bytes) (s : Stream) (added : Bytes)
    → IsGood s
    → w.can_write name ≡ true
    → ((put w name s added).0 ≡ s)
      × ((put w name s added).1.files other
          ≡ (if same name other then w.files other ++ added else w.files other))
      × ((put w name s added).1.console ≡ w.console)
unfolding put
put_good w name other s [] g c = ground (arith, append-nil (w.files other))
put_good w name other s (x ∷ added) g c = ground arith

write_file_good :
    (w : World) (name other : Bytes) (a : LogAppender) (added : Bytes)
    → IsGood a.stream
    → w.can_write name ≡ true
    → ((write_file w name a added).0 ≡ a)
      × ((write_file w name a added).1.files other
          ≡ (if same name other then w.files other ++ added else w.files other))
      × ((write_file w name a added).1.console ≡ w.console)
unfolding write_file
write_file_good w name other a added g c = ground (arith, put_good w name other a.stream added g c)

-- What `log` has of the appender before it writes.
pub refresh-IsGood :
    (w : World) (name : Bytes) (a : LogAppender) (now : ℕ)
    → IsSettled a.stream
    → w.can_open name ≡ true
    → (a.stream.is_open ≡ true) ⊎ (is_due a.last_time now ≡ true)
    → IsGood (refresh w name a now).stream
unfolding reopen
refresh-IsGood w name a now h o k = ground (arith, reopen_stream-IsSettled w name a.stream (inl h))

module _ (cal : Calendar) where
  -- If the file can be opened and written, the stream is good exactly while it is open, it is open
  -- or due to be reopened, and the level passes, then `FileLogAppender::log` appends the formatted
  -- message to its own file and to no other, leaves the console alone, and leaves the stream open
  -- and good.
  pub log_file_writes :
      (w : World) (name logger : Bytes) (a : LogAppender) (level : LogLevel) (event : LogEvent)
      → IsSettled a.stream
      → w.can_open name ≡ true
      → w.can_write name ≡ true
      → (a.stream.is_open ≡ true) ⊎ (is_due a.last_time event.time ≡ true)
      → level_le a.level level ≡ true
      → (other : Bytes)
      → let r = log_file cal w name a logger level event in
        (r.1.files other ≡ (
          if same name other
          then w.files other ++ format cal a.formatter logger level event
          else w.files other))
        × (r.1.console ≡ w.console)
        × (r.0.stream.is_open ≡ true)
        × IsSettled r.0.stream
  unfolding log_file
  log_file_writes w name logger a level event h o c k pass other =
      let good = refresh-IsGood w name a event.time h o k in
      let wrote =
        write_file_good w name other (refresh w name a event.time)
          (format cal a.formatter logger level event) good c in
      rw (pass, log_file)
        (wrote.1, wrote.2, rw (wrote.0) (good.1), rw (wrote.0) (good.0 ∙ ap not (sym good.1)))

-- The constructors of the appenders.
pub record IsNew (kind : AppenderKind) (w : World) (x : LogAppender) : Type 0 where
  pub same_kind : x.kind ≡ kind
  pub formatter : x.formatter ≡ new_formatter default_pattern

pub new_stdout_appender-IsNew : (w : World) → IsNew stdout w new_stdout_appender
unfolding new_appender
new_stdout_appender-IsNew w = record { same_kind = refl; formatter = refl }

pub new_file_appender-IsNew :
    (w : World) (name : Bytes) → IsNew (file name) w (new_file_appender w name)
unfolding new_file_appender new_appender reopen
new_file_appender-IsNew w name = record { same_kind = refl; formatter = refl }

-- The stream of a new file appender is open and good, or closed and failed.
pub new_file_appender-IsSettled :
    (w : World) (name : Bytes)
    → IsSettled (new_file_appender w name).stream
      × ((new_file_appender w name).stream.is_open ≡ w.can_open name)
unfolding new_file_appender new_appender reopen
new_file_appender-IsSettled w name =
    let s = reopen_stream-IsSettled w name new_stream (inr refl) in (s.0, s.2)
