-- ===== src/Log/Define/Text/Appenders.antt =====
-- What is read back of an appender definition that has been written.
use simple_http_server.Base.{
  ℕ, ◌≡◌, refl, sym, ◌⊎◌, inl, inr, Bool, true, false, not, List, [], ◌∷◌, ◌++◌, none, some,
  if◌then◌else◌, is_empty, Bool-cases, ap, ◌∙◌,
}
use simple_http_server.Base.Bytes.{Bytes, codes, same}
use simple_http_server.Base.Dict.{find}
use simple_http_server.Log.Level.{LogLevel, unknow, level_eq, to_string, from_string-to_string}
use simple_http_server.Log.Define.{LogAppenderDefine}
use simple_http_server.Log.Define.Text.{
  YamlText, level_of, formatter_of, read_rest, read_file, read_typed, read_appender, type_entries,
  level_entries, formatter_entries, node_of_appender,
}

-- What the conversions rely on: a node made of a text, of entries or of nodes gives them back.
pub record IsYaml (yaml : YamlText) : Type 0 where
  pub text-of_text : (s : Bytes) → yaml.text (yaml.of_text s) ≡ some s
  pub field-of_map :
      (es : List (Bytes × yaml.Node)) (key : Bytes) → yaml.field (yaml.of_map es) key ≡ find key es
  pub items-of_list : (ns : List yaml.Node) → yaml.items (yaml.of_list ns) ≡ ns

-- An appender is of a known type, and has a file only if its type is that of files.
unfoldable pub IsKnown : LogAppenderDefine → Type 0
IsKnown a = (a.type ≡ 1) ⊎ ((a.type ≡ 2) × (a.file ≡ []))

-- The appender with another level.
unfoldable pub at_level : LogLevel → LogAppenderDefine → LogAppenderDefine
at_level l a = record a { level = l }

module _ (yaml : YamlText) (laws : IsYaml yaml) where
  find-level :
      (l : LogLevel) (f : Bytes)
      → find (codes "level") (level_entries yaml l ++ formatter_entries yaml f)
        ≡ (if not (level_eq l unknow) then some (yaml.of_text (to_string l)) else none)
  unfolding find same
  find-level l f = elim (Bool-cases (level_eq l unknow)) [
    | inl e ↦ rw (e) (no_level f)
    | inr e ↦ rw (e) refl
  ]
    where
      no_level : (g : Bytes) → find (codes "level") (formatter_entries yaml g) ≡ none
      no_level [] = refl
      no_level (c ∷ cs) = refl

  find-formatter :
      (l : LogLevel) (f : Bytes)
      → find (codes "formatter") (level_entries yaml l ++ formatter_entries yaml f)
        ≡ (if not (is_empty f) then some (yaml.of_text f) else none)
  unfolding find same
  find-formatter l f = elim (Bool-cases (level_eq l unknow)) [
    | inl e ↦ rw (e) (only f)
    | inr e ↦ rw (e) (only f)
  ]
    where
      only :
          (g : Bytes)
          → find (codes "formatter") (formatter_entries yaml g)
            ≡ (if not (is_empty g) then some (yaml.of_text g) else none)
      only [] = refl
      only (c ∷ cs) = refl

  pub level_of-written :
      (b : Bool) (n : yaml.Node) (l : LogLevel)
      → level_of yaml (if b then some n else none) (some (yaml.of_text (to_string l))) l ≡ some l
  unfolding level_of
  level_of-written true n l = rw (laws.text-of_text (to_string l), from_string-to_string l) refl
  level_of-written false n l = refl

  formatter_of-written :
      (f : Bytes)
      → formatter_of yaml (if not (is_empty f) then some (yaml.of_text f) else none) ≡ some f
  unfolding formatter_of
  formatter_of-written [] = refl
  formatter_of-written (c ∷ cs) = laws.text-of_text (c ∷ cs)

  -- Behind its type, an appender's node is read with the logger's level.
  read_rest-written :
      (node na : yaml.Node) (l : LogLevel) (a : LogAppenderDefine) (type : ℕ) (file : Bytes)
      → yaml.field node (codes "level") ≡ some (yaml.of_text (to_string l))
      → yaml.field na (codes "level")
        ≡ find (codes "level") (level_entries yaml a.level ++ formatter_entries yaml a.formatter)
      → yaml.field na (codes "formatter")
        ≡ find
            (codes "formatter")
            (level_entries yaml a.level ++ formatter_entries yaml a.formatter)
      → read_rest yaml node l na type file
        ≡ some (some (record { type = type; level = l; formatter = a.formatter; file = file }))
  unfolding read_rest
  read_rest-written node na l a type file e el ef =
      rw
        (
          el,
          find-level a.level a.formatter,
          e,
          level_of-written (not (level_eq a.level unknow)) (yaml.of_text (to_string a.level)) l,
          ef,
          find-formatter a.level a.formatter,
          formatter_of-written a.formatter,
        )
        refl

  pub read_appender-typed :
      (node na : yaml.Node) (l : LogLevel) (type : Bytes)
      → yaml.field na (codes "type") ≡ some (yaml.of_text type)
      → read_appender yaml node l na ≡ read_typed yaml node l na type
  unfolding read_appender
  read_appender-typed node na l type e = rw (read_appender, e, laws.text-of_text type) refl

  pub read_typed-file :
      (node na : yaml.Node) (l : LogLevel) (file : Bytes)
      → yaml.field na (codes "file") ≡ some (yaml.of_text file)
      → read_typed yaml node l na (codes "FileLogAppender") ≡ read_rest yaml node l na 1 file
  unfolding read_typed read_file same
  read_typed-file node na l file e = rw (e, laws.text-of_text file) refl

  pub read_typed-stdout :
      (node na : yaml.Node) (l : LogLevel)
      → read_typed yaml node l na (codes "StdoutLogAppender") ≡ read_rest yaml node l na 2 []
  unfolding read_typed same
  read_typed-stdout node na l = refl

  -- The entries that all types have.
  abbrev rest_of : LogAppenderDefine → List (Bytes × yaml.Node)
  rest_of a = level_entries yaml a.level ++ formatter_entries yaml a.formatter

  abbrev file_entries : LogAppenderDefine → List (Bytes × yaml.Node)
  file_entries a =
      (codes "type", yaml.of_text (codes "FileLogAppender"))
      ∷ (codes "file", yaml.of_text a.file)
      ∷ rest_of a

  abbrev stdout_entries : LogAppenderDefine → List (Bytes × yaml.Node)
  stdout_entries a = (codes "type", yaml.of_text (codes "StdoutLogAppender")) ∷ rest_of a

  node_of_appender-file :
      (a : LogAppenderDefine) → a.type ≡ 1 → node_of_appender yaml a ≡ yaml.of_map (file_entries a)
  unfolding node_of_appender
  node_of_appender-file a e =
      ap (λ n. yaml.of_map (type_entries yaml (record a { type = n }) ++ rest_of a)) e

  node_of_appender-stdout :
      (a : LogAppenderDefine)
      → a.type ≡ 2
      → node_of_appender yaml a ≡ yaml.of_map (stdout_entries a)
  unfolding node_of_appender
  node_of_appender-stdout a e =
      ap (λ n. yaml.of_map (type_entries yaml (record a { type = n }) ++ rest_of a)) e

  read_file_appender :
      (node : yaml.Node) (l : LogLevel) (a : LogAppenderDefine)
      → yaml.field node (codes "level") ≡ some (yaml.of_text (to_string l))
      → read_appender yaml node l (yaml.of_map (file_entries a))
        ≡ some (some (record (at_level l a) { type = 1 }))
  unfolding find same at_level
  read_file_appender node l a e =
      let es = file_entries a in
      read_appender-typed node (yaml.of_map es) l (codes "FileLogAppender")
        (laws.field-of_map es (codes "type"))
      ∙ read_typed-file node (yaml.of_map es) l a.file (laws.field-of_map es (codes "file"))
      ∙ read_rest-written node (yaml.of_map es) l a 1 a.file e
          (laws.field-of_map es (codes "level")) (laws.field-of_map es (codes "formatter"))

  read_stdout_appender :
      (node : yaml.Node) (l : LogLevel) (a : LogAppenderDefine)
      → yaml.field node (codes "level") ≡ some (yaml.of_text (to_string l))
      → read_appender yaml node l (yaml.of_map (stdout_entries a))
        ≡ some (some (record (at_level l a) { type = 2; file = [] }))
  unfolding find same at_level
  read_stdout_appender node l a e =
      let es = stdout_entries a in
      read_appender-typed node (yaml.of_map es) l (codes "StdoutLogAppender")
        (laws.field-of_map es (codes "type"))
      ∙ read_typed-stdout node (yaml.of_map es) l
      ∙ read_rest-written node (yaml.of_map es) l a 2 [] e (laws.field-of_map es (codes "level"))
          (laws.field-of_map es (codes "formatter"))

  pub read_appender-written :
      (node : yaml.Node) (l : LogLevel) (a : LogAppenderDefine)
      → yaml.field node (codes "level") ≡ some (yaml.of_text (to_string l))
      → IsKnown a
      → read_appender yaml node l (node_of_appender yaml a) ≡ some (some (at_level l a))
  unfolding IsKnown at_level
  read_appender-written node l a e (inl file) =
      ap (read_appender yaml node l) (node_of_appender-file a file)
      ∙ read_file_appender node l a e
      ∙ ap (λ n. some (some (record (at_level l a) { type = n }))) (sym file)
  read_appender-written node l a e (inr (stdout, no_file)) =
      ap (read_appender yaml node l) (node_of_appender-stdout a stdout)
      ∙ read_stdout_appender node l a e
      ∙ ap (λ n. some (some (record (at_level l a) { type = n; file = [] }))) (sym stdout)
      ∙ ap (λ f. some (some (record (at_level l a) { file = f }))) (sym no_file)
