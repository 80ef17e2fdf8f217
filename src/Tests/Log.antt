-- ===== src/Tests/Log.antt =====
-- Tests of src/_log.
use simple_http_server.Base.{
  ℕ, ◌≡◌, refl, true, false, List, [], ◌∷◌, ◌++◌, some, inl, arith, if◌then◌else◌, ◌<◌,
}
use simple_http_server.Base.Bytes.{codes, same, isalpha, before, Bytes}
use simple_http_server.Base.Dict.{find}
use simple_http_server.Base.Int.{pos}
use simple_http_server.Log.Level.{info, warn, fatal, level_le}
use simple_http_server.Log.Pattern.{Piece, text, directive, tokenize}
use simple_http_server.Log.Pattern.RoundTrip.{print, IsPrintable, tokenize-print}
use simple_http_server.Log.Event.{LogEvent}
use simple_http_server.Log.Formatter.{Calendar, message, new_line, new_formatter, format}
use simple_http_server.Log.Formatter.Errors.{new_formatter_double_percent}
use simple_http_server.Log.Formatter.Output.{pattern_text, format-print}
use simple_http_server.Log.Appender.{World, Stream, LogAppender, file, log_file}
use simple_http_server.Log.Appender.Streams.{IsSettled, log_file_writes}
use simple_http_server.Log.Appender.Recovery.{calls, failed_write_is_final}
use simple_http_server.Log.Logger.{log}
use simple_http_server.Log.Manager.{Manager, new_manager, get_logger}
use simple_http_server.Log.Manager.Invariant.{
  IsValid, new_manager-IsValid, get_logger-IsValid, get_logger_again,
}
use simple_http_server.Log.Manager.Routing.{routed, log-registered}
use simple_http_server.Log.Define.{LogAppenderDefine, LogDefine}

-- "%d{%F}%T[%p] %m%n" as pieces.
abbrev pieces : List Piece
pieces =
    directive (codes "d") (codes "%F")
    ∷ directive (codes "T") []
    ∷ text (codes "[")
    ∷ directive (codes "p") []
    ∷ text (codes "] ")
    ∷ directive (codes "m") []
    ∷ directive (codes "n") []
    ∷ []

print-pieces : print pieces ≡ codes "%d{%F}%T[%p] %m%n"
print-pieces = refl

tokenize-pieces : tokenize (codes "%d{%F}%T[%p] %m%n") ≡ (pieces, false)
unfolding tokenize isalpha
tokenize-pieces = refl

tokenize_broken : tokenize (codes "a%%b %d{x") ≡ (
  text (codes "a%")
      ∷ directive (codes "b") []
      ∷ text (codes "<<pattern_error>>")
      ∷ text (codes " d{x")
      ∷ [],
  true,
)
unfolding tokenize isalpha
tokenize_broken = refl

pieces-IsPrintable : IsPrintable pieces
unfolding isalpha
pieces-IsPrintable = ground arith

-- A calendar that prints the format itself.
abbrev pub calendar : Calendar
calendar = record { Tm = ℕ; localtime_r = λ t. some t; strftime = λ size fmt tm. fmt }

abbrev pub event : LogEvent
event = record {
  file = codes "main.cpp";
  line = pos 42;
  elapse = 0;
  thread_id = 7;
  fiber_id = 0;
  time = 100;
  thread_name = codes "UNKNOW";
  content = codes "hello";
  logger = 0;
  level = info;
}

abbrev pub world : World
world = record { console = []; files = λ _. []; can_open = λ _. true; can_write = λ _. true }

abbrev written : Bytes
written = codes "%F\t[INFO] hello\n"

format_pieces :
    format calendar (new_formatter (codes "%d{%F}%T[%p] %m%n")) (codes "a") info event ≡ written
unfolding format new_formatter isalpha same
format_pieces = refl

tokenize-print_example : tokenize (print pieces) ≡ (pieces, false)
tokenize-print_example = tokenize-print pieces pieces-IsPrintable

format-print_example :
    format calendar (new_formatter (print pieces)) (codes "a") info event
    ≡ pattern_text calendar (codes "a") info event pieces
format-print_example = format-print calendar (codes "a") info event pieces pieces-IsPrintable

new_formatter_double_percent_example : (new_formatter (codes "100%% sure")).failed ≡ true
unfolding isalpha
new_formatter_double_percent_example =
    new_formatter_double_percent (codes "100") (codes " sure") (omega arith) refl refl

abbrev open_stream : Stream
open_stream = record { is_open = true; fail = false }

abbrev appender : LogAppender
appender = record {
  kind = file (codes "x");
  level = info;
  formatter = new_formatter (codes "%m");
  stream = open_stream;
  last_time = 99;
}

pub info_passes : level_le info info ≡ true
unfolding level_le
info_passes = refl

log_file_writes_example :
    let r = log_file calendar world (codes "x") appender (codes "a") info event in
    (r.1.files (codes "x") ≡ (
      if same (codes "x") (codes "x")
      then world.files (codes "x") ++ format calendar appender.formatter (codes "a") info event
      else world.files (codes "x")))
    × (r.1.console ≡ world.console)
    × (r.0.stream.is_open ≡ true)
    × IsSettled r.0.stream
log_file_writes_example =
    log_file_writes calendar world (codes "x") (codes "a") appender info event refl refl refl
      (inl refl) info_passes (codes "x")

abbrev full_disk : World
full_disk = record world { can_write = λ _. false }

-- The same appender, with "%m%n".
abbrev line_appender : LogAppender
line_appender = record appender { formatter = new_formatter (codes "%m%n") }

line_appender-items : line_appender.formatter.items ≡ message ∷ new_line ∷ []
unfolding new_formatter isalpha same
line_appender-items = refl

failed_write_is_final_example :
    let r = log_file calendar full_disk (codes "x") line_appender (codes "a") info event in
    (r.1.files ≡ full_disk.files)
    × ((calls calendar (codes "x") (codes "a") r.1 r.0 (
          record { can_open = λ _. true; can_write = λ _. true; level = fatal; event = event }
          ∷ [])).1.files
        ≡ full_disk.files)
failed_write_is_final_example =
    failed_write_is_final calendar (codes "x") (codes "a") full_disk line_appender info event
      (message ∷ []) []
      (record { can_open = λ _. true; can_write = λ _. true; level = fatal; event = event } ∷ [])
      refl refl refl refl info_passes line_appender-items

registry-IsValid : IsValid (get_logger (new_manager world) (codes "system")).0
registry-IsValid =
    get_logger-IsValid (new_manager world) (codes "system") (new_manager-IsValid world)

found_system :
    find (codes "system") (get_logger (new_manager world) (codes "system")).0.loggers
    ≡ some (get_logger (new_manager world) (codes "system")).1
unfolding get_logger new_manager find same before
found_system = refl

system_again : get_logger (get_logger (new_manager world) (codes "system")).0 (codes "system") ≡ (
  (get_logger (new_manager world) (codes "system")).0,
  (get_logger (new_manager world) (codes "system")).1,
)
system_again = get_logger_again (new_manager world) (codes "system")

root_is_allocated : 0 < (new_manager world).heap.next_logger
unfolding new_manager
root_is_allocated = omega arith

abbrev system : Manager
system = (get_logger (new_manager world) (codes "system")).0

log-registered_example :
    log calendar 2 system.heap (get_logger (new_manager world) (codes "system")).1 info event
    ≡ some (
        routed calendar system.heap
          (system.heap.logger (get_logger (new_manager world) (codes "system")).1)
          (system.heap.logger system.root)
          info
          event)
log-registered_example =
    log-registered calendar system (codes "system")
      (get_logger (new_manager world) (codes "system")).1 0 info event registry-IsValid found_system

abbrev to_console : LogAppenderDefine
to_console = record { type = 2; level = info; formatter = []; file = [] }

abbrev to_file : LogAppenderDefine
to_file = record { type = 1; level = info; formatter = codes "%m%n"; file = codes "x" }

abbrev define : LogDefine
define = record { name = codes "system"; level = warn; formatter = []; appenders = to_file ∷ [] }

abbrev define_before : LogDefine
define_before = record define { appenders = to_console ∷ [] }
