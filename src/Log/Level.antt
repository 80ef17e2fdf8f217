-- ===== src/Log/Level.antt =====
-- src/_log/LogLevel.h: the log levels and `LogLevelHelper`.
use simple_http_server.Base.{ℕ, ◌≡◌, refl, Bool, false, leb, if◌then◌else◌}
use simple_http_server.Base.Bytes.{Bytes, codes, same}

pub data LogLevel : Type 0 where
  unknow debug info warn error fatal : LogLevel

-- The `uint8_t` value of the enumerator.
unfoldable pub value : LogLevel → ℕ
value unknow = 0
value debug = 1
value info = 2
value warn = 3
value error = 4
value fatal = 5

-- `a <= b` on the enumeration.
unfoldable pub level_le : LogLevel → LogLevel → Bool
unfolding value
level_le a b = leb (value a) (value b)

-- `a == b` on the enumeration.
unfoldable pub level_eq : LogLevel → LogLevel → Bool
unfolding level_le
level_eq a b = if level_le a b then level_le b a else false

unfoldable pub to_string : LogLevel → Bytes
to_string unknow = codes "UNKNOW"
to_string debug = codes "DEBUG"
to_string info = codes "INFO"
to_string warn = codes "WARN"
to_string error = codes "ERROR"
to_string fatal = codes "FATAL"

unfoldable pub from_string : Bytes → LogLevel
from_string s =
    if same s (codes "UNKNOW")
    then unknow
    else if same s (codes "unknow")
    then unknow
    else if same s (codes "DEBUG")
    then debug
    else if same s (codes "debug")
    then debug
    else if same s (codes "INFO")
    then info
    else if same s (codes "info")
    then info
    else if same s (codes "WARN")
    then warn
    else if same s (codes "warn")
    then warn
    else if same s (codes "ERROR")
    then error
    else if same s (codes "error")
    then error
    else if same s (codes "FATAL")
    then fatal
    else if same s (codes "fatal")
    then fatal
    else unknow

-- Every level is read back from its printed name.
pub from_string-to_string : (l : LogLevel) → from_string (to_string l) ≡ l
unfolding from_string to_string same
from_string-to_string unknow = refl
from_string-to_string debug = refl
from_string-to_string info = refl
from_string-to_string warn = refl
from_string-to_string error = refl
from_string-to_string fatal = refl
