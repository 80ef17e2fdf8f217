-- ===== src/Log/Define/Text.antt =====
-- src/_log/log.cpp: the two conversions between `LogDefine` and YAML text.
pub mod Appenders
pub mod RoundTrip
use simple_http_server.Base.{
  ℕ, Bool, true, false, not, List, [], ◌∷◌, ◌++◌, Option, none, some, if◌then◌else◌, ◌==◌, is_empty,
  map,
}
use simple_http_server.Base.Bytes.{Bytes, codes, same}
use simple_http_server.Log.Level.{LogLevel, unknow, level_eq, from_string, to_string}
use simple_http_server.Log.Define.{LogAppenderDefine, LogDefine}

-- The YAML library, as far as the conversions use it: `none` is a node that is not defined for
-- `field`, and an exception for `load` and `text`. `of_map` is what assigning the entries to an
-- empty node makes, in their order, and `of_list` what pushing the nodes makes.
pub record YamlText : Type 1 where
  pub Node : Type 0
  pub load : Bytes → Option Node
  pub field : Node → Bytes → Option Node
  pub text : Node → Option Bytes
  pub items : Node → List Node
  pub of_text : Bytes → Node
  pub of_map : List (Bytes × Node) → Node
  pub of_list : List Node → Node
  pub emit : Node → Bytes

-- An exception ends a conversion.
abbrev pub then_read : {A B : Type 0} → Option A → (A → Option B) → Option B
then_read none k = none
then_read (some a) k = k a

module _ (yaml : YamlText) where
  open yaml use {Node, load, field, text, items, of_text, of_map, of_list, emit}

  -- `node[key].as<std::string>()`: a node that is not defined throws.
  abbrev pub text_of : Option Node → Option Bytes
  text_of none = none
  text_of (some n) = text n

  -- `lad.level`: if the appender's node has a level, the level that is read is the logger's.
  unfoldable pub level_of : Option Node → Option Node → LogLevel → Option LogLevel
  level_of none of_logger level = some level
  level_of (some own) of_logger level = then_read (text_of of_logger) (λ s. some (from_string s))

  unfoldable pub formatter_of : Option Node → Option Bytes
  formatter_of none = some []
  formatter_of (some n) = text n

  -- Behind the type of an appender.
  unfoldable pub read_rest : Node → LogLevel → Node → ℕ → Bytes → Option (Option LogAppenderDefine)
  unfolding level_of formatter_of
  read_rest node level a type file =
      then_read (level_of (field a (codes "level")) (field node (codes "level")) level) (λ l.
        then_read (formatter_of (field a (codes "formatter")))
          (λ f. some (some (record { type = type; level = l; formatter = f; file = file }))))

  unfoldable pub read_file :
      Node → LogLevel → Node → Option Node → Option (Option LogAppenderDefine)
  unfolding read_rest
  read_file node level a none = some none
  read_file node level a (some file) = then_read (text file) (λ f. read_rest node level a 1 f)

  unfoldable pub read_typed : Node → LogLevel → Node → Bytes → Option (Option LogAppenderDefine)
  unfolding read_file read_rest
  read_typed node level a type =
      if same type (codes "FileLogAppender")
      then read_file node level a (field a (codes "file"))
      else if same type (codes "StdoutLogAppender")
      then read_rest node level a 2 []
      else read_rest node level a 0 []

  -- The body of the loop over the appenders: an exception, no appender (`continue`), or one.
  unfoldable pub read_appender : Node → LogLevel → Node → Option (Option LogAppenderDefine)
  unfolding read_typed
  read_appender node level a = elim (field a (codes "type")) [
    | none ↦ some none
    | some t ↦ then_read (text t) (λ type. read_typed node level a type)
  ]

  abbrev pub push : Option LogAppenderDefine → List LogAppenderDefine → List LogAppenderDefine
  push none rest = rest
  push (some a) rest = a ∷ rest

  unfoldable pub read_appenders : Node → LogLevel → List Node → Option (List LogAppenderDefine)
  unfolding read_appender
  read_appenders node level [] = some []
  read_appenders node level (a ∷ rest) =
      then_read (read_appender node level a)
        (λ one. then_read (read_appenders node level rest) (λ more. some (push one more)))

  abbrev pub items_of : Option Node → List Node
  items_of none = []
  items_of (some n) = items n

  -- The level of the definition: that of the empty text, if there is none.
  unfoldable pub define_level : Option Node → Option LogLevel
  define_level none = some (from_string [])
  define_level (some n) = then_read (text n) (λ s. some (from_string s))

  unfoldable pub define_of_node : Node → Option LogDefine
  unfolding define_level read_appenders
  define_of_node node = then_read (text_of (field node (codes "name"))) (λ name.
      then_read (define_level (field node (codes "level"))) (λ level.
        then_read (read_appenders node level (items_of (field node (codes "appenders"))))
          (λ as'. some (record { name = name; level = level; formatter = []; appenders = as' }))))

  -- `Lexical_cast<std::string, LogDefine>`
  unfoldable pub define_of_text : Bytes → Option LogDefine
  unfolding define_of_node
  define_of_text s = then_read (load s) define_of_node

  -- The entries that are written for an appender, and for a definition.
  abbrev pub type_entries : LogAppenderDefine → List (Bytes × Node)
  type_entries a =
      if a.type == 1
      then (codes "type", of_text (codes "FileLogAppender")) ∷ (codes "file", of_text a.file) ∷ []
      else if a.type == 2
      then (codes "type", of_text (codes "StdoutLogAppender")) ∷ []
      else []

  abbrev pub level_entries : LogLevel → List (Bytes × Node)
  level_entries l =
      if not (level_eq l unknow) then (codes "level", of_text (to_string l)) ∷ [] else []

  abbrev pub formatter_entries : Bytes → List (Bytes × Node)
  formatter_entries f = if not (is_empty f) then (codes "formatter", of_text f) ∷ [] else []

  unfoldable pub node_of_appender : LogAppenderDefine → Node
  node_of_appender a =
      of_map (type_entries a ++ (level_entries a.level ++ formatter_entries a.formatter))

  abbrev pub appenders_entries : List LogAppenderDefine → List (Bytes × Node)
  appenders_entries [] = []
  appenders_entries (a ∷ rest) = (codes "appenders", of_list (map node_of_appender (a ∷ rest))) ∷ []

  unfoldable pub node_of_define : LogDefine → Node
  unfolding node_of_appender
  node_of_define d =
      of_map
        ((codes "name", of_text d.name) ∷ level_entries d.level ++ appenders_entries d.appenders)

  -- `Lexical_cast<LogDefine, std::string>`
  unfoldable pub text_of_define : LogDefine → Bytes
  unfolding node_of_define
  text_of_define d = emit (node_of_define d)
