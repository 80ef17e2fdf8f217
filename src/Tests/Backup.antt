-- ===== src/Tests/Backup.antt =====
-- Tests of the earlier logging module.
use simple_http_server.Base.{◌≡◌, refl, false, [], ◌∷◌, none, some}
use simple_http_server.Base.Bytes.{codes, same, isalpha}
use simple_http_server.Log.Level.{debug, info}
use simple_http_server.Log.Pattern
use simple_http_server.Log.Pattern.{Piece, directive, text}
use simple_http_server.Log.Formatter
use simple_http_server.Log.Appender.{new_appender, stdout}
use simple_http_server.Log.Appender
use simple_http_server.Log.Logger
use simple_http_server.Backup.Pattern.{tokenize, scan}
use simple_http_server.Backup.{Heap, log}
use simple_http_server.Backup.Consoles.{IsView, IsPlain, old_appender, log-IsView}
use simple_http_server.Backup.Same.{has_no_date}
use simple_http_server.Tests.Log.{calendar, event, world}

abbrev appender : Appender.LogAppender
appender = record {
  kind = stdout;
  level = info;
  formatter = Formatter.new_formatter (codes "[%p] %m%n");
  stream = record { is_open = false; fail = false };
  last_time = 0;
}

abbrev heap : Logger.Heap
heap = record {
  logger = λ p. record { name = codes "a"; level = debug; appenders = 0 ∷ 1 ∷ []; root = none };
  next_logger = 1;
  appender = λ a. appender;
  next_appender = 2;
  world = world;
}

abbrev old_heap : Heap
old_heap = record {
  logger = λ p. record { name = codes "a"; level = debug; appenders = 0 ∷ 1 ∷ [] };
  appender = λ a. old_appender appender;
  world = world;
}

view : IsView heap old_heap
view = record { appender = λ a. refl; world = refl }

plain : IsPlain appender
unfolding has_no_date Formatter.new_formatter isalpha same
plain = record { kind = refl; undated = refl }

log-IsView_example :
    (h' : Logger.Heap) × (Logger.log calendar 1 heap 0 info event ≡ some h')
    × (o' : Heap) × (log old_heap 0 info event ≡ some o')
    × IsView h' o'
log-IsView_example =
    log-IsView calendar 0 heap old_heap 0 info event view refl refl (plain, (plain, tt))

-- The name of a directive with braces at the pattern's beginning has the brace with it.
brace_in_name :
    (tokenize (codes "%d{%Y}%m")).0
    ≡ directive (codes "d{") (codes "%Y") ∷ directive (codes "m") [] ∷ []
unfolding tokenize scan isalpha
brace_in_name = refl

brace_outside :
    (Pattern.tokenize (codes "%d{%Y}%m")).0
    ≡ directive (codes "d") (codes "%Y") ∷ directive (codes "m") [] ∷ []
unfolding Pattern.tokenize isalpha
brace_outside = refl
