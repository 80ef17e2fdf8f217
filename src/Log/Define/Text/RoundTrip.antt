-- ===== src/Log/Define/Text/RoundTrip.antt =====
-- What is read back of a definition that has been written.
use simple_http_server.Base.{List, ◌∷◌}
use simple_http_server.Base.Bytes.{Bytes, codes}
use simple_http_server.Log.Level.{to_string}
use simple_http_server.Log.Define.{LogDefine}
use simple_http_server.Log.Define.Text.{YamlText, appenders_entries}
use simple_http_server.Log.Define.Text.Appenders.{IsYaml}

module _ (yaml : YamlText) (laws : IsYaml yaml) where
  -- The entries of a definition whose level is known.
  abbrev entries_of : LogDefine → List (Bytes × yaml.Node)
  entries_of d =
      (codes "name", yaml.of_text d.name)
      ∷ (codes "level", yaml.of_text (to_string d.level))
      ∷ appenders_entries yaml d.appenders
