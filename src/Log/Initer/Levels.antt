-- ===== src/Log/Initer/Levels.antt =====
-- The loggers of the definitions that have been loaded.
use simple_http_server.Base.{◌≡◌, refl, true, false, List, [], ◌∷◌, some, All, arith}
use simple_http_server.Base.Bytes.{Bytes, same, same_iff}
use simple_http_server.Log.Manager.{Manager}
use simple_http_server.Log.Manager.Invariant.{IsValid}
use simple_http_server.Log.Define.{LogDefine, find_define, on_defines_changed, with_heap}
use simple_http_server.Log.Define.Settled.{
  HasNames, IsChanged, IsSettled, on_defines_changed-IsSettled,
}
use simple_http_server.Log.Define.Frame.{Keeps-IsValid}
use simple_http_server.Base.Before.{before-same, before_trans}
use simple_http_server.Log.Formatter.{Calendar}
use simple_http_server.Log.Logger.{Heap, Site}
use simple_http_server.Log.Define.Text.{YamlText}
use simple_http_server.Config.Cast.{YamlList, set_of_text}
use simple_http_server.Config.Cast.Sets.{IsSorted}
use simple_http_server.Config.Cast.Order.{set_of_text-IsSorted}
use simple_http_server.Config.Var.{ConfigVar, from_string, caught}
use simple_http_server.Config.Var.Changes.{Heard, none_left, one_more, set_value-Heard}
use simple_http_server.Log.Initer.{before_define, same_defines, define_element, logs_setting}
use simple_http_server.Log.Initer.Reload.{
  SameLoggers, conf_listener_lem, SameLoggers-Keeps, Listens,
}

differs-sorted :
    (d : LogDefine) (ds : List LogDefine)
    → All (λ e. before_define d e ≡ true) ds
    → All (λ e. same e.name d.name ≡ false) ds
differs-sorted d [] hs = tt
differs-sorted d (e ∷ ds) (h, hs) = (
  ground (arith, before-same d.name e.name h, same_iff d.name e.name, same_iff e.name d.name),
  differs-sorted d ds hs,
)

IsSorted-HasNames : (ds : List LogDefine) → IsSorted before_define ds → HasNames ds
IsSorted-HasNames [] o = tt
IsSorted-HasNames (d ∷ ds) (h, o) = (differs-sorted d ds h, IsSorted-HasNames ds o)

-- What `fromString` does when the definitions that are read differ from the ones that are set.
pub from_string-set :
    (cal : Calendar) (site : Site) (lists : YamlList) (yaml : YamlText)
    (report : Bytes → Bytes → Manager → Manager) (v : ConfigVar (List LogDefine) Manager)
    (m : Manager) (text : Bytes) (new : List LogDefine)
    → Listens cal site v
    → IsValid m
    → set_of_text lists (define_element yaml) before_define text ≡ some new
    → same_defines v.value new ≡ false
    → (h : Heap) × SameLoggers m.heap h
      × (from_string (logs_setting lists yaml report) v text m
          ≡ (record v { value = new }, on_defines_changed (with_heap m h) v.value new, true))
unfolding from_string caught
from_string-set cal site lists yaml report v m text new (key, ls) ok read differs =
    let s = logs_setting lists yaml report in
    let (h, same_loggers, e) = conf_listener_lem cal site v.value new m ok in
    let m' = on_defines_changed (with_heap m h) v.value new in
    let heard : Heard v.value new v.listeners m m' = rw (ls) (one_more e none_left) in
    let set = set_value-Heard s v new m m' differs heard in
    (h, same_loggers, rw (read, from_string) (rw (set) refl))

pub read-HasNames :
    (lists : YamlList) (yaml : YamlText) (text : Bytes) (new : List LogDefine)
    → set_of_text lists (define_element yaml) before_define text ≡ some new
    → HasNames new
read-HasNames lists yaml text new read = IsSorted-HasNames new (
    set_of_text-IsSorted before_define (λ a b c. before_trans a.name b.name c.name) lists
      (define_element yaml) text new read)

-- When a text for "logs" reads as definitions that differ from the ones that are set, `fromString`
-- sets the variable to them with success, and the logger of each definition that is new or has
-- changed, as `operator==` of `LogDefine` has it, ends with the definition's level and as many
-- appenders as it asks for, if the registry of loggers is valid and the listener of `LogIniter` is
-- the variable's only one.
pub from_string-IsSettled :
    (cal : Calendar) (site : Site) (lists : YamlList) (yaml : YamlText)
    (report : Bytes → Bytes → Manager → Manager) (v : ConfigVar (List LogDefine) Manager)
    (m : Manager) (text : Bytes) (new : List LogDefine)
    → Listens cal site v
    → IsValid m
    → set_of_text lists (define_element yaml) before_define text ≡ some new
    → same_defines v.value new ≡ false
    → let r = from_string (logs_setting lists yaml report) v text m in
      (r.0.value ≡ new)
      × (r.2 ≡ true)
      × ((d : LogDefine) → find_define d.name new ≡ some d → IsChanged v.value d → IsSettled r.1 d)
from_string-IsSettled cal site lists yaml report v m text new ls ok read differs =
    let (h, same_loggers, e) =
      from_string-set cal site lists yaml report v m text new ls ok read differs in
    rw (e) (
      refl,
      refl,
      λ d there c.
          on_defines_changed-IsSettled (with_heap m h) v.value new d
            (Keeps-IsValid (SameLoggers-Keeps m h same_loggers) ok)
            (read-HasNames lists yaml text new read) there c,
    )
