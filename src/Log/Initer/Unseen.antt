-- ===== src/Log/Initer/Unseen.antt =====
-- A text for "logs" that changes appenders alone.
use simple_http_server.Base.{◌≡◌, refl, true, List, [], ◌∷◌, some, arith}
use simple_http_server.Base.Bytes.{Bytes, same_refl}
use simple_http_server.Log.Define.Changes.{level_eq_refl, same_appenders_refl}
use simple_http_server.Log.Manager.{Manager}
use simple_http_server.Log.Define.{LogAppenderDefine, LogDefine, same_define}
use simple_http_server.Config.Var.{ConfigVar, from_string, set_value, caught}
use simple_http_server.Config.Cast.{YamlList, set_of_text}
use simple_http_server.Log.Define.Text.{YamlText}
use simple_http_server.Log.Initer.{same_defines, logs_setting, define_element, before_define}

-- The same definitions with other appenders, as far as these are given.
unfoldable pub with_appenders : List LogDefine → List (List LogAppenderDefine) → List LogDefine
with_appenders [] as' = []
with_appenders (d ∷ ds) [] = d ∷ ds
with_appenders (d ∷ ds) (a ∷ as') = record d { appenders = a } ∷ with_appenders ds as'

same_define-appenders :
    (d : LogDefine) (as' : List LogAppenderDefine)
    → same_define d (record d { appenders = as' }) ≡ true
unfolding same_define
same_define-appenders d as' = ground (
  arith,
  same_refl d.name,
  level_eq_refl d.level,
  same_refl d.formatter,
  same_appenders_refl d.appenders,
)

same_defines_refl : (ds : List LogDefine) → same_defines ds ds ≡ true
unfolding same_defines
same_defines_refl [] = refl
same_defines_refl (d ∷ ds) = rw (same_define-appenders d d.appenders) (same_defines_refl ds)

same_defines-appenders :
    (ds : List LogDefine) (as' : List (List LogAppenderDefine))
    → same_defines ds (with_appenders ds as') ≡ true
unfolding same_defines with_appenders
same_defines-appenders [] as' = refl
same_defines-appenders (d ∷ ds) [] = same_defines_refl (d ∷ ds)
same_defines-appenders (d ∷ ds) (a ∷ as') =
    rw (same_define-appenders d a) (same_defines-appenders ds as')

-- A text for "logs" that reads as the definitions that are set, with other appenders, is loaded
-- with success and without any effect: neither the variable nor any logger changes.
pub appenders_text_ignored :
    (lists : YamlList) (yaml : YamlText) (report : Bytes → Bytes → Manager → Manager)
    (v : ConfigVar (List LogDefine) Manager) (m : Manager) (text : Bytes)
    (as' : List (List LogAppenderDefine))
    → set_of_text lists (define_element yaml) before_define text ≡ some (with_appenders v.value as')
    → from_string (logs_setting lists yaml report) v text m ≡ (v, m, true)
unfolding from_string set_value caught
appenders_text_ignored lists yaml report v m text as' e =
    rw (e, from_string) (rw (same_defines-appenders v.value as') refl)
