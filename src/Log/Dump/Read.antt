-- ===== src/Log/Dump/Read.antt =====
-- What the configuration reads of a logger that has been written by `toYamlNode`.
use simple_http_server.Base.{
  ℕ, ◌≡◌, refl, ◌∙◌, ap, false, not, List, [], ◌∷◌, ◌++◌, none, some, if◌then◌else◌, map,
  Bool-cases, inl, inr,
}
use simple_http_server.Base.Bytes.{Bytes, codes, same}
use simple_http_server.Base.Dict.{find}
use simple_http_server.Log.Level.{LogLevel, unknow, level_eq, to_string, from_string-to_string}
use simple_http_server.Log.Appender.{AppenderKind, stdout, file, LogAppender}
use simple_http_server.Log.Logger.{Heap}
use simple_http_server.Log.Define.{LogAppenderDefine}
use simple_http_server.Log.Define.Text.{
  YamlText, formatter_of, read_rest, read_typed, read_appender, read_appenders, define_level,
  define_of_node, items_of,
}
use simple_http_server.Log.Define.Text.Appenders.{
  IsYaml, level_of-written, read_appender-typed, read_typed-file, read_typed-stdout,
}
use simple_http_server.Log.Dump.{
  level_entry, file_entry, appender_entries, appender_to_yaml, appenders_entry, logger_to_yaml,
  type_name,
}

-- The definition of an appender, with another level.
unfoldable pub define_of : LogLevel → LogAppender → LogAppenderDefine
define_of l a = elim a.kind [
  | stdout ↦ record { type = 2; level = l; formatter = a.formatter.pattern; file = [] }
  | file name ↦ record { type = 1; level = l; formatter = a.formatter.pattern; file = name }
]

module _ (yaml : YamlText) (laws : IsYaml yaml) where
  find-level :
      (l : LogLevel) (rest : List (Bytes × yaml.Node))
      → find (codes "level") rest ≡ none
      → find (codes "level") (level_entry yaml l ++ rest)
        ≡ (if not (level_eq l unknow) then some (yaml.of_text (to_string l)) else none)
  unfolding find same
  find-level l rest e = elim (Bool-cases (level_eq l unknow)) [
    | inl u ↦ rw (u) e
    | inr u ↦ rw (u) refl
  ]

  find-other :
      (key : Bytes) (l : LogLevel) (rest : List (Bytes × yaml.Node))
      → same (codes "level") key ≡ false
      → find key (level_entry yaml l ++ rest) ≡ find key rest
  unfolding find
  find-other key l rest e = elim (Bool-cases (level_eq l unknow)) [
    | inl u ↦ rw (u) refl
    | inr u ↦ rw (u, e) refl
  ]

  no_level_in_file : (k : AppenderKind) → find (codes "level") (file_entry yaml k) ≡ none
  unfolding find same
  no_level_in_file stdout = refl
  no_level_in_file (file name) = refl

  -- The entries behind the level.
  abbrev tail_of : LogAppender → List (Bytes × yaml.Node)
  tail_of a = (codes "formatter", yaml.of_text a.formatter.pattern) ∷ file_entry yaml a.kind

  field-level :
      (a : LogAppender)
      → yaml.field (appender_to_yaml yaml a) (codes "level")
        ≡ (if not (level_eq a.level unknow) then some (yaml.of_text (to_string a.level)) else none)
  unfolding appender_to_yaml find same
  field-level a =
      laws.field-of_map (appender_entries yaml a) (codes "level")
      ∙ find-level a.level (tail_of a) (no_level_in_file a.kind)

  field-formatter :
      (a : LogAppender)
      → yaml.field (appender_to_yaml yaml a) (codes "formatter")
        ≡ some (yaml.of_text a.formatter.pattern)
  unfolding appender_to_yaml find same
  field-formatter a =
      laws.field-of_map (appender_entries yaml a) (codes "formatter")
      ∙ find-other (codes "formatter") a.level (tail_of a) refl

  field-type :
      (a : LogAppender)
      → yaml.field (appender_to_yaml yaml a) (codes "type")
        ≡ some (yaml.of_text (type_name yaml a.kind))
  unfolding appender_to_yaml find same
  field-type a = laws.field-of_map (appender_entries yaml a) (codes "type")

  field-file :
      (a : LogAppender)
      → yaml.field (appender_to_yaml yaml a) (codes "file")
        ≡ find (codes "file") (file_entry yaml a.kind)
  unfolding appender_to_yaml find same
  field-file a =
      laws.field-of_map (appender_entries yaml a) (codes "file")
      ∙ find-other (codes "file") a.level (tail_of a) refl

  read_rest-dumped :
      (node : yaml.Node) (l : LogLevel) (a : LogAppender) (type : ℕ) (path : Bytes)
      → yaml.field node (codes "level") ≡ some (yaml.of_text (to_string l))
      → read_rest yaml node l (appender_to_yaml yaml a) type path
        ≡ some
            (some (record { type = type; level = l; formatter = a.formatter.pattern; file = path }))
  unfolding read_rest formatter_of
  read_rest-dumped node l a type path e =
      rw
        (
          field-level a,
          e,
          level_of-written yaml laws (not (level_eq a.level unknow))
              (yaml.of_text (to_string a.level)) l,
          field-formatter a,
          laws.text-of_text a.formatter.pattern,
        )
        refl

  read_kind :
      (node : yaml.Node) (l : LogLevel) (a : LogAppender) (k : AppenderKind)
      → a.kind ≡ k
      → yaml.field node (codes "level") ≡ some (yaml.of_text (to_string l))
      → read_typed yaml node l (appender_to_yaml yaml a) (type_name yaml k)
        ≡ some (some (define_of l (record a { kind = k })))
  unfolding define_of find same
  read_kind node l a stdout k e =
      read_typed-stdout yaml laws node (appender_to_yaml yaml a) l
      ∙ read_rest-dumped node l a 2 [] e
  read_kind node l a (file name) k e =
      read_typed-file yaml laws node (appender_to_yaml yaml a) l name
        (field-file a ∙ ap (λ z. find (codes "file") (file_entry yaml z)) k)
      ∙ read_rest-dumped node l a 1 name e

  read_appender-dumped :
      (node : yaml.Node) (l : LogLevel) (a : LogAppender)
      → yaml.field node (codes "level") ≡ some (yaml.of_text (to_string l))
      → read_appender yaml node l (appender_to_yaml yaml a) ≡ some (some (define_of l a))
  read_appender-dumped node l a e =
      read_appender-typed yaml laws node (appender_to_yaml yaml a) l (type_name yaml a.kind)
        (field-type a)
      ∙ read_kind node l a a.kind refl e

  read_appenders-dumped :
      (node : yaml.Node) (l : LogLevel) (h : Heap) (ps : List ℕ)
      → yaml.field node (codes "level") ≡ some (yaml.of_text (to_string l))
      → read_appenders yaml node l (map (λ p. appender_to_yaml yaml (h.appender p)) ps)
        ≡ some (map (λ p. define_of l (h.appender p)) ps)
  unfolding read_appenders
  read_appenders-dumped node l h [] e = refl
  read_appenders-dumped node l h (p ∷ ps) e =
      rw (read_appender-dumped node l (h.appender p) e, read_appenders-dumped node l h ps e) refl

  items_of-dumped :
      (h : Heap) (ps : List ℕ)
      → items_of yaml (find (codes "appenders") (appenders_entry yaml h ps))
        ≡ map (λ p. appender_to_yaml yaml (h.appender p)) ps
  unfolding find same
  items_of-dumped h [] = refl
  items_of-dumped h (p ∷ ps) =
      laws.items-of_list (map (λ q. appender_to_yaml yaml (h.appender q)) (p ∷ ps))

  no_level_in_appenders :
      (h : Heap) (ps : List ℕ) → find (codes "level") (appenders_entry yaml h ps) ≡ none
  unfolding find same
  no_level_in_appenders h [] = refl
  no_level_in_appenders h (p ∷ ps) = refl

-- What the configuration reads of a logger written by `toYamlNode` is a definition with its name,
-- its level and the type, file and pattern of each appender in order, while the formatter is empty
-- and every appender has the level of the logger, if the logger's level is known.
pub define_of_node-logger_to_yaml :
    (yaml : YamlText) (h : Heap) (p : ℕ)
    → IsYaml yaml
    → level_eq (h.logger p).level unknow ≡ false
    → define_of_node yaml (logger_to_yaml yaml h p)
      ≡ some (record {
        name = (h.logger p).name;
        level = (h.logger p).level;
        formatter = [];
        appenders = map (λ q. define_of (h.logger p).level (h.appender q)) (h.logger p).appenders;
      })
unfolding define_of_node logger_to_yaml define_level find same
define_of_node-logger_to_yaml yaml h p laws known =
    let l = h.logger p in
    let es =
      (codes "name", yaml.of_text l.name)
      ∷ (level_entry yaml l.level ++ appenders_entry yaml h l.appenders) in
    let node = yaml.of_map es in
    let lev : yaml.field node (codes "level") ≡ some (yaml.of_text (to_string l.level)) =
      laws.field-of_map es (codes "level")
      ∙ find-level yaml laws l.level (appenders_entry yaml h l.appenders)
          (no_level_in_appenders yaml laws h l.appenders)
      ∙ rw (known) refl in
    rw
      (
        laws.field-of_map es (codes "name"),
        laws.text-of_text l.name,
        lev,
        laws.text-of_text (to_string l.level),
        from_string-to_string l.level,
        laws.field-of_map es (codes "appenders"),
        find-other yaml laws (codes "appenders") l.level (appenders_entry yaml h l.appenders) refl,
        items_of-dumped yaml laws h l.appenders,
        read_appenders-dumped yaml laws node l.level h l.appenders lev,
      )
      refl
