-- ===== src/Log/Initer.antt =====
-- src/_log/log.cpp: the variable "logs" and the listener that `LogIniter` gives it. Texts are read
-- by the conversions of src/config/config.h for sets, with those of `LogDefine` for the elements.
pub mod Reload
pub mod Unseen
pub mod Levels
pub mod Output
use simple_http_server.Base.{ℕ, Bool, true, false, ◌&&◌, List, [], ◌∷◌, Option, none, some}
use simple_http_server.Base.Bytes.{Bytes, codes, before}
use simple_http_server.Log.Formatter.{Calendar}
use simple_http_server.Log.Logger.{Site}
use simple_http_server.Log.Manager.{Manager}
use simple_http_server.Log.Define.{LogDefine, same_define, on_logger_conf_changed}
use simple_http_server.Log.Define.Text.{YamlText, define_of_text, text_of_define}
use simple_http_server.Config.Cast.{YamlList, Element, set_of_text, text_of_set}
use simple_http_server.Config.Var.{
  Outcome, done, threw, Setting, Callback, ConfigVar, new_var, add_listener, from_string,
}

-- `LogDefine::operator<`
abbrev pub before_define : LogDefine → LogDefine → Bool
before_define d oth = before d.name oth.name

-- `operator==` of `std::set<LogDefine>`
unfoldable pub same_defines : List LogDefine → List LogDefine → Bool
same_defines [] [] = true
same_defines [] (e ∷ es) = false
same_defines (d ∷ ds) [] = false
same_defines (d ∷ ds) (e ∷ es) = same_define d e && same_defines ds es

-- `Lexical_cast` between text and `LogDefine`
abbrev pub define_element : YamlText → Element LogDefine
define_element yaml = record {
  from_text = define_of_text yaml;
  to_text = λ d. some (text_of_define yaml d);
}

-- `ConfigVar<std::set<LogDefine>>`, where `report` logs the error message of a conversion.
abbrev pub logs_setting :
    YamlList → YamlText → (Bytes → Bytes → Manager → Manager) → Setting (List LogDefine) Manager
logs_setting lists yaml report = record {
  same_value = same_defines;
  from_text = set_of_text lists (define_element yaml) before_define;
  to_text = text_of_set lists (define_element yaml);
  report = report;
}

-- `g_log_defines`
unfoldable pub log_defines : ConfigVar (List LogDefine) Manager
unfolding new_var
log_defines = new_var [] (codes "logs") (codes "logs config")

-- A listener that never comes back is taken for one that throws.
unfoldable pub returned : Manager → Option Manager → Outcome Manager
returned m none = threw m
returned m (some m') = done m'

module _ (cal : Calendar) (site : Site) where
  -- The listener; its message to the root logger has fuel for one logger and the root behind it.
  unfoldable pub conf_listener : Callback (List LogDefine) Manager
  unfolding returned on_logger_conf_changed
  conf_listener old new m = returned m (on_logger_conf_changed cal 2 site m old new)

  -- The constructor of `LogIniter`, with the counter of listener keys.
  unfoldable pub log_initer :
      ConfigVar (List LogDefine) Manager → ℕ → ConfigVar (List LogDefine) Manager × ℕ
  unfolding add_listener conf_listener
  log_initer v last_id = add_listener v conf_listener last_id

-- Texts given to `fromString` one after the other.
unfoldable pub load_each :
    Setting (List LogDefine) Manager
    → ConfigVar (List LogDefine) Manager
    → Manager
    → List Bytes
    → ConfigVar (List LogDefine) Manager × Manager
load_each s v m [] = (v, m)
load_each s v m (text ∷ texts) =
    let (v', m', ok) = from_string s v text m in load_each s v' m' texts
