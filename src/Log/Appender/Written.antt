-- ===== src/Log/Appender/Written.antt =====
-- What an appender writes, by its kind.
use simple_http_server.Base.{
  ◌≡◌, sym, ◌∙◌, true, false, [], ◌∷◌, ◌++◌, arith, inl, if◌then◌else◌, append-nil,
}
use simple_http_server.Base.Bytes.{Bytes, same}
use simple_http_server.Log.Level.{LogLevel, level_le}
use simple_http_server.Log.Event.{LogEvent}
use simple_http_server.Log.Formatter.{Calendar, format}
use simple_http_server.Log.Appender.{
  World, AppenderKind, stdout, file, LogAppender, log_kind, log_stdout, log_file, put, write_file,
  reopen,
}
use simple_http_server.Log.Appender.Streams.{IsSettled, log_file_writes}

-- The files can be opened and written.
abbrev pub IsAllowed : World → AppenderKind → Type 0
IsAllowed w stdout = Unit
IsAllowed w (file name) = (w.can_open name ≡ true) × (w.can_write name ≡ true)

-- What a text adds to the console, and to a file.
abbrev pub printed : AppenderKind → Bytes → Bytes
printed stdout text = text ++ b'\n' ∷ []
printed (file name) text = []

abbrev pub filed : Bytes → AppenderKind → Bytes → Bytes
filed other stdout text = []
filed other (file name) text = if same name other then text else []

-- The stream of a file is open and good.
abbrev pub IsOpen : AppenderKind → LogAppender → Type 0
IsOpen stdout x = Unit
IsOpen (file name) x = (x.stream.is_open ≡ true) × IsSettled x.stream

pub record Kept (w v : World) (x y : LogAppender) : Type 0 where
  pub same_kind : y.kind ≡ x.kind
  pub same_level : y.level ≡ x.level
  pub same_formatter : y.formatter ≡ x.formatter
  pub same_open : v.can_open ≡ w.can_open
  pub same_write : v.can_write ≡ w.can_write

-- What one appender writes.
pub record Wrote (k : AppenderKind) (w v : World) (y : LogAppender) (text : Bytes) : Type 0 where
  pub console : v.console ≡ w.console ++ printed k text
  pub files : (other : Bytes) → v.files other ≡ w.files other ++ filed other k text
  pub stays : IsOpen k y

pub record Silent (k : AppenderKind) (w v : World) (y : LogAppender) : Type 0 where
  pub console : v.console ≡ w.console
  pub files : (other : Bytes) → v.files other ≡ w.files other
  pub stays : IsOpen k y

module _ (cal : Calendar) where
  -- `log` of an appender changes its stream and its time, and no permission.
  pub log_kind-Kept :
      (k : AppenderKind) (w : World) (x : LogAppender) (logger : Bytes) (level : LogLevel)
      (event : LogEvent)
      → let r = log_kind cal k w x logger level event in Kept w r.1 x r.0
  unfolding log_kind log_stdout log_file write_file put reopen
  log_kind-Kept stdout w x logger level event = record {
    same_kind = ground arith;
    same_level = ground arith;
    same_formatter = ground arith;
    same_open = ground arith;
    same_write = ground arith;
  }
  log_kind-Kept (file name) w x logger level event = record {
    same_kind = ground arith;
    same_level = ground arith;
    same_formatter = ground arith;
    same_open = ground arith;
    same_write = ground arith;
  }

  pub log_kind-Wrote :
      (k : AppenderKind) (w : World) (x : LogAppender) (logger : Bytes) (level : LogLevel)
      (event : LogEvent)
      → IsAllowed w k
      → IsOpen k x
      → level_le x.level level ≡ true
      → let r = log_kind cal k w x logger level event in
        Wrote k w r.1 r.0 (format cal x.formatter logger level event)
  unfolding log_kind log_stdout
  log_kind-Wrote stdout w x logger level event c o pass = record {
    console = ground (arith, pass);
    files = λ other. ground (arith, pass, append-nil (w.files other));
    stays = tt;
  }
  log_kind-Wrote (file name) w x logger level event (can_open, can_write) (o, settled) pass =
      let wrote =
        log_file_writes cal w name logger x level event settled can_open can_write (inl o) pass in
      record {
        console = (wrote name).1 ∙ sym (append-nil w.console);
        files = λ other. (wrote other).0 ∙ ground (arith, append-nil (w.files other));
        stays = ((wrote name).2, (wrote name).3);
      }

  pub log_kind-Silent :
      (k : AppenderKind) (w : World) (x : LogAppender) (logger : Bytes) (level : LogLevel)
      (event : LogEvent)
      → IsOpen k x
      → level_le x.level level ≡ false
      → let r = log_kind cal k w x logger level event in Silent k w r.1 r.0
  unfolding log_kind log_stdout log_file
  log_kind-Silent stdout w x logger level event o stop = record {
    console = ground (arith, stop);
    files = λ other. ground (arith, stop);
    stays = tt;
  }
  log_kind-Silent (file name) w x logger level event o stop = record {
    console = ground (arith, stop);
    files = λ other. ground (arith, stop);
    stays = rw (stop, log_kind, log_file) o;
  }
