-- ===== src/Tests/Initer.antt =====
-- Tests of the variable "logs".
use simple_http_server.Base.{ℕ, ◌≡◌, refl, Bool, true, List, [], ◌∷◌, none, some, map, arith}
use simple_http_server.Base.Bytes.{Bytes, codes, same}
use simple_http_server.Base.Dict.{find}
use simple_http_server.Base.Int.{pos}
use simple_http_server.Log.Level.{warn, error, level_eq, level_le, from_string, to_string}
use simple_http_server.Log.Formatter.{Calendar}
use simple_http_server.Log.Appender.{World}
use simple_http_server.Log.Logger.{Heap, Site, site_event, log}
use simple_http_server.Log.Event.{LogEvent, stream_text}
use simple_http_server.Log.Manager.{Manager, new_manager}
use simple_http_server.Log.Manager.Invariant.{IsValid, new_manager-IsValid}
use simple_http_server.Log.Define.{LogAppenderDefine, LogDefine, find_define}
use simple_http_server.Log.Define.Settled.{IsChanged, IsSettled}
use simple_http_server.Log.Define.Text.{
  YamlText, node_of_define, node_of_appender, define_of_text, define_of_node,
}
use simple_http_server.Config.Cast.{YamlList, set_of_text, insert, read_each}
use simple_http_server.Config.Var
use simple_http_server.Config.Var.{ConfigVar}
use simple_http_server.Log.Initer.{
  before_define, same_defines, define_element, logs_setting, log_defines, log_initer, load_each,
}
use simple_http_server.Log.Initer.Reload.{log_initer-Listens, load_each-IsValid}
use simple_http_server.Log.Initer.Unseen.{with_appenders, appenders_text_ignored}
use simple_http_server.Log.Initer.Levels.{from_string-IsSettled}
use simple_http_server.Log.Initer.Output.{from_string-Added}
use simple_http_server.Log.Define.Output.{Added}
use simple_http_server.Log.Define.Installed.{known}
use simple_http_server.Tests.Trees.{trees}

abbrev pub calendar : Calendar
calendar = record { Tm = ℕ; localtime_r = λ t. some t; strftime = λ size fmt tm. fmt }

abbrev pub site : Site
site = record {
  file = codes "log.cpp";
  line = pos 655;
  thread_id = 1;
  fiber_id = 0;
  time = 7;
  thread_name = codes "main";
}

abbrev pub world : World
world = record {
  console = [];
  files = λ name. [];
  can_open = λ name. true;
  can_write = λ name. true;
}

abbrev pub registry : Manager
registry = new_manager world

abbrev to_console : LogAppenderDefine
to_console = record { type = 2; level = warn; formatter = []; file = [] }

abbrev to_file : LogAppenderDefine
to_file = record { type = 1; level = warn; formatter = codes "%m"; file = codes "a.log" }

abbrev targets : List LogAppenderDefine
targets = to_console ∷ to_file ∷ []

abbrev pub system_define : LogDefine
system_define = record { name = codes "system"; level = warn; formatter = []; appenders = targets }

-- Every element of a list is the one document.
abbrev yaml : YamlText
yaml = trees (some (node_of_define (trees none) system_define))

-- A list with one element for each byte.
abbrev lists : YamlList
lists = record {
  Node = Bytes;
  load = some;
  items = map (λ b. b ∷ []);
  entries = λ n. [];
  of_list = λ ns. [];
  of_map = λ es. [];
  emit = λ n. n;
}

abbrev silent : Bytes → Bytes → Manager → Manager
silent name text m = m

abbrev logs : ConfigVar (List LogDefine) Manager
logs = (log_initer calendar site log_defines 0).0

system_read :
    set_of_text lists (define_element yaml) before_define (codes "a") ≡ some (system_define ∷ [])
unfolding set_of_text read_each insert define_of_text define_of_node node_of_define node_of_appender
    find same level_eq from_string to_string
system_read = refl

load_each-IsValid_example :
    IsValid (load_each (logs_setting lists yaml silent) logs registry (codes "a" ∷ [] ∷ [])).1
load_each-IsValid_example =
    load_each-IsValid calendar site lists yaml silent 0 registry (codes "a" ∷ [] ∷ [])
      (λ name text n v. v) (new_manager-IsValid world)

abbrev after_loading : ConfigVar (List LogDefine) Manager × Manager × Bool
after_loading = Var.from_string (logs_setting lists yaml silent) logs (codes "a") registry

from_string-IsSettled_example :
    (after_loading.0.value ≡ system_define ∷ [])
    × (after_loading.2 ≡ true)
    × ((d : LogDefine)
        → find_define d.name (system_define ∷ []) ≡ some d
        → IsChanged [] d
        → IsSettled after_loading.1 d)
unfolding same_defines log_initer log_defines
from_string-IsSettled_example =
    from_string-IsSettled calendar site lists yaml silent logs registry (codes "a")
      (system_define ∷ []) (log_initer-Listens calendar site 0) (new_manager-IsValid world)
      system_read refl

abbrev event : LogEvent
event = stream_text (site_event 0 error site) (codes "hi")

from_string-Added_example :
    (p : ℕ) × (h : Heap) × (find system_define.name after_loading.1.loggers ≡ some p)
    × (log calendar 2 after_loading.1.heap p error event ≡ some h)
    × Added calendar after_loading.1.heap.world h.world
        (known targets)
        system_define.name
        error
        event
unfolding same_defines log_initer log_defines known find_define same level_le new_manager
from_string-Added_example =
    from_string-Added calendar site lists yaml silent logs registry (codes "a") (system_define ∷ [])
      system_define 0 error event (log_initer-Listens calendar site 0) (new_manager-IsValid world)
      system_read refl refl (λ b there. absurd (ground (arith, there))) (tt, ((refl, refl), tt))
      refl refl

-- The variable once it holds the definition without appenders.
abbrev bare : ConfigVar (List LogDefine) Manager
bare = record logs { value = record system_define { appenders = [] } ∷ [] }

appenders_text_ignored_example :
    Var.from_string (logs_setting lists yaml silent) bare (codes "a") registry
    ≡ (bare, registry, true)
unfolding with_appenders
appenders_text_ignored_example =
    appenders_text_ignored lists yaml silent bare registry (codes "a") (targets ∷ []) system_read
