-- ===== src/Log/Formatter.antt =====
-- src/_log/log.cpp and src/_log/LogFormatter.h: the format items, the second half of
-- `LogFormatter::init`, and `LogFormatter::format`.
pub mod Table
pub mod Errors
pub mod Output
use simple_http_server.Base.{
  ℕ, Bool, true, false, ◌||◌, List, [], ◌∷◌, ◌++◌, Option, none, some, if◌then◌else◌, is_empty,
  ◌==◌,
}
use simple_http_server.Base.Bytes.{Bytes, codes, same, decimal}
use simple_http_server.Base.Dict.{Dict, find}
use simple_http_server.Base.Int.{decimal_int}
use simple_http_server.Log.Level.{LogLevel, to_string}
use simple_http_server.Log.Event.{LogEvent}
use simple_http_server.Log.Pattern.{Piece, text, directive, tokenize}

-- The calendar of the C library: `localtime_r`, and what `strftime` leaves in a buffer.
pub record Calendar : Type 1 where
  pub Tm : Type 0
  pub localtime_r : ℕ → Option Tm
  pub strftime : ℕ → Bytes → Tm → Bytes

-- The subclasses of `FormatItem`.
pub data Item : Type 0 where
  message level elapse name thread_id fiber_id thread_name : Item
  date_time : Bytes → Item
  filename line new_line tab : Item
  string : Bytes → Item

abbrev pub default_date : Bytes
default_date = codes "%Y-%m-%d %H:%M:%S"

-- The constructor of `DateTimeFormatItem`.
unfoldable pub new_date_time : Bytes → Item
new_date_time fmt = date_time (if is_empty fmt then default_date else fmt)

-- `s_format_items`, each entry applied to the directive's argument.
unfoldable pub format_items : Bytes → Dict Item
unfolding new_date_time
format_items fmt =
    (codes "m", message)
    ∷ (codes "p", level)
    ∷ (codes "r", elapse)
    ∷ (codes "c", name)
    ∷ (codes "t", thread_id)
    ∷ (codes "n", new_line)
    ∷ (codes "d", new_date_time fmt)
    ∷ (codes "f", filename)
    ∷ (codes "l", line)
    ∷ (codes "T", tab)
    ∷ (codes "F", fiber_id)
    ∷ (codes "N", thread_name)
    ∷ []

abbrev pub unknown_directive : Bytes → Bytes
unknown_directive str = codes "<<error_format %" ++ (str ++ codes ">>")

unfoldable pub found_item : Bytes → Option Item → Item × Bool
found_item str none = (string (unknown_directive str), true)
found_item str (some it) = (it, false)

-- The item of a piece, and whether it is an error.
unfoldable pub piece_item : Piece → Item × Bool
piece_item (text str) = (string str, false)
piece_item (directive str fmt) = found_item str (find str (format_items fmt))

-- The loop over `vec`: `m_items` and `m_error`.
unfoldable pub build_items : List Piece → Bool → List Item × Bool
build_items [] failed = ([], failed)
build_items (p ∷ ps) failed =
    let (it, bad) = piece_item p in
    let (items, failed') = build_items ps (failed || bad) in (it ∷ items, failed')

pub record LogFormatter : Type 0 where
  pub pattern : Bytes
  pub items : List Item
  pub failed : Bool

unfoldable pub new_formatter : Bytes → LogFormatter
unfolding tokenize build_items piece_item found_item format_items find
new_formatter pattern =
    let (vec, failed) = tokenize pattern in
    let (items, failed') = build_items vec failed in
    record { pattern = pattern; items = items; failed = failed' }

abbrev pub default_pattern : Bytes
default_pattern = codes "%d{%Y-%m-%d %H:%M:%S}%T%t%T%N%T%F%T[%p]%T[%c]%T%f:%l%T%m%n"

-- `safe_localtime` of src/util/util.cpp, on a POSIX platform.
module _ (cal : Calendar) where
  open cal use {Tm, localtime_r, strftime}

  unfoldable pub safe_localtime : ℕ → Option Tm
  safe_localtime time = localtime_r time

  unfoldable pub format_date : Bytes → Option Tm → Bytes
  format_date fmt none = []
  format_date fmt (some tm) = strftime 80 fmt tm

  -- What `FormatItem::format` of each class writes, given the logger's name.
  unfoldable pub format_item : Bytes → LogLevel → LogEvent → Item → Bytes
  unfolding to_string decimal decimal_int format_date safe_localtime
  format_item logger lvl event message = event.content
  format_item logger lvl event level = to_string lvl
  format_item logger lvl event elapse = decimal event.elapse
  format_item logger lvl event name = logger
  format_item logger lvl event thread_id = decimal event.thread_id
  format_item logger lvl event fiber_id = decimal event.fiber_id
  format_item logger lvl event thread_name = event.thread_name
  format_item logger lvl event (date_time fmt) = format_date fmt (safe_localtime event.time)
  format_item logger lvl event filename = event.file
  format_item logger lvl event line = decimal_int event.line
  format_item logger lvl event new_line = b'\n' ∷ []
  format_item logger lvl event tab = b'\t' ∷ []
  format_item logger lvl event (string str) = str

  unfoldable pub format_all : Bytes → LogLevel → LogEvent → List Item → Bytes
  unfolding format_item
  format_all logger lvl event [] = []
  format_all logger lvl event (it ∷ items) =
      format_item logger lvl event it ++ format_all logger lvl event items

  -- Both overloads of `LogFormatter::format`: the text that they write to the stream.
  unfoldable pub format : LogFormatter → Bytes → LogLevel → LogEvent → Bytes
  unfolding format_all
  format f logger lvl event = format_all logger lvl event f.items
