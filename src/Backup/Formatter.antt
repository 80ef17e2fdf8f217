-- ===== src/Backup/Formatter.antt =====
-- backup/log.cpp: the formatter. The date is written as a number.
use simple_http_server.Base.{List, [], ◌∷◌, ◌++◌}
use simple_http_server.Base.Bytes.{Bytes, decimal}
use simple_http_server.Base.Int.{decimal_int}
use simple_http_server.Log.Level.{LogLevel, to_string}
use simple_http_server.Log.Event.{LogEvent}
use simple_http_server.Log.Formatter.{
  Item, message, level, elapse, name, thread_id, fiber_id, thread_name, date_time, filename, line,
  new_line, tab, string, LogFormatter, build_items,
}
use simple_http_server.Backup.Pattern.{tokenize}

unfoldable pub new_formatter : Bytes → LogFormatter
unfolding tokenize build_items
new_formatter pattern =
    let (vec, failed) = tokenize pattern in
    let (items, failed') = build_items vec failed in
    record { pattern = pattern; items = items; failed = failed' }

-- What `FormatItem::format` of each class writes, given the logger's name.
unfoldable pub format_item : Bytes → LogLevel → LogEvent → Item → Bytes
unfolding to_string decimal decimal_int
format_item logger lvl event message = event.content
format_item logger lvl event level = to_string lvl
format_item logger lvl event elapse = decimal event.elapse
format_item logger lvl event name = logger
format_item logger lvl event thread_id = decimal event.thread_id
format_item logger lvl event fiber_id = decimal event.fiber_id
format_item logger lvl event thread_name = event.thread_name
format_item logger lvl event (date_time fmt) = decimal event.time
format_item logger lvl event filename = event.file
format_item logger lvl event line = decimal_int event.line
format_item logger lvl event new_line = b'\n' ∷ []
format_item logger lvl event tab = b'\t' ∷ []
format_item logger lvl event (string str) = str

unfoldable pub format_all : Bytes → LogLevel → LogEvent → List Item → Bytes
unfolding format_item
format_all logger lvl event [] = []
format_all logger lvl event (it ∷ items) =
    format_item logger lvl event it ++ format_all logger lvl event items

unfoldable pub format : LogFormatter → Bytes → LogLevel → LogEvent → Bytes
unfolding format_all
format f logger lvl event = format_all logger lvl event f.items
