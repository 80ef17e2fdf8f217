-- ===== src/Tests/Trees.antt =====
-- A YAML library for the tests.
use simple_http_server.Base.{◌≡◌, refl, ap, List, [], ◌∷◌, Option, none, some}
use simple_http_server.Base.Bytes.{Bytes, codes}
use simple_http_server.Base.Dict.{find}
use simple_http_server.Log.Define.Text.{YamlText}
use simple_http_server.Log.Define.Text.Appenders.{IsYaml}

-- Documents.
mutual
  pub data Tree : Type 0 where
    scalar : Bytes → Tree
    mapping : Entries → Tree
    sequence : Trees → Tree

  pub data Entries : Type 0 where
    no_entry : Entries
    entry : Bytes → Tree → Entries → Entries

  pub data Trees : Type 0 where
    no_tree : Trees
    tree : Tree → Trees → Trees

abbrev pub to_entries : List (Bytes × Tree) → Entries
to_entries [] = no_entry
to_entries ((k, t) ∷ es) = entry k t (to_entries es)

abbrev pub from_entries : Entries → List (Bytes × Tree)
from_entries no_entry = []
from_entries (entry k t es) = (k, t) ∷ from_entries es

abbrev pub to_trees : List Tree → Trees
to_trees [] = no_tree
to_trees (t ∷ ts) = tree t (to_trees ts)

abbrev pub from_trees : Trees → List Tree
from_trees no_tree = []
from_trees (tree t ts) = t ∷ from_trees ts

from_entries-to_entries : (es : List (Bytes × Tree)) → from_entries (to_entries es) ≡ es
from_entries-to_entries [] = refl
from_entries-to_entries ((k, t) ∷ es) = ap (λ r. (k, t) ∷ r) (from_entries-to_entries es)

from_trees-to_trees : (ts : List Tree) → from_trees (to_trees ts) ≡ ts
from_trees-to_trees [] = refl
from_trees-to_trees (t ∷ ts) = ap (λ r. t ∷ r) (from_trees-to_trees ts)

abbrev pub entries_in : Tree → List (Bytes × Tree)
entries_in (scalar s) = []
entries_in (mapping es) = from_entries es
entries_in (sequence ts) = []

abbrev pub text_in : Tree → Option Bytes
text_in (scalar s) = some s
text_in (mapping es) = none
text_in (sequence ts) = none

abbrev pub trees_in : Tree → List Tree
trees_in (scalar s) = []
trees_in (mapping es) = []
trees_in (sequence ts) = from_trees ts

-- A library that knows one document.
abbrev pub trees : Option Tree → YamlText
trees loaded = record {
  Node = Tree;
  load = λ s. loaded;
  field = λ n key. find key (entries_in n);
  text = text_in;
  items = trees_in;
  of_text = scalar;
  of_map = λ es. mapping (to_entries es);
  of_list = λ ns. sequence (to_trees ns);
  emit = λ n. codes "the document";
}

pub trees-IsYaml : (loaded : Option Tree) → IsYaml (trees loaded)
trees-IsYaml loaded = record {
  text-of_text = λ s. refl;
  field-of_map = λ es key. ap (find key) (from_entries-to_entries es);
  items-of_list = from_trees-to_trees;
}
