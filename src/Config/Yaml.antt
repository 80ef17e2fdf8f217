-- ===== src/Config/Yaml.antt =====
-- src/config/config.cpp: `ListAllMember` and `Config::LoadFromYaml`. The YAML library is a
-- parameter: what the code reads of a node, and that a document is a finite tree.
pub mod Members
pub mod Load
use simple_http_server.Base.{
  ℕ, zero, suc, ◌<◌, Bool, true, false, not, List, [], ◌∷◌, ◌++◌, map, Option, none, some,
  if◌then◌else◌, is_empty, All,
}
use simple_http_server.Base.Bytes.{Bytes, tolower}
use simple_http_server.Config.Registry.{VarClass, Registry, is_valid_name, lookup_base}

-- `entries` is what the iterators of a map give: `it->first.Scalar()` and `it->second`. `dump` is
-- what `<<` writes.
pub record Yaml : Type 1 where
  pub Node : Type 0
  pub is_map : Node → Bool
  pub entries : Node → List (Bytes × Node)
  pub is_scalar : Node → Bool
  pub scalar : Node → Bytes
  pub dump : Node → Bytes
  pub depth : Node → ℕ
  pub entries_below : (n : Node) → All (λ e. depth e.1 < depth n) (entries n)

-- `prefix.empty() ? key : prefix + "." + key`
unfoldable pub join : Bytes → Bytes → Bytes
join prefix key = if is_empty prefix then key else prefix ++ (b'.' ∷ key)

module _ (yaml : Yaml) where
  open yaml use {Node, is_map, entries, is_scalar, scalar, dump}

  abbrev pub Member : Type 0
  Member = Bytes × Node

  -- The loop over a map's entries, given the recursive call.
  unfoldable pub list_entries :
      (Bytes → Node → List Member → Option (List Member))
      → Bytes
      → List (Bytes × Node)
      → List Member
      → Option (List Member)
  list_entries call prefix [] output = some output
  list_entries call prefix ((key, node) ∷ rest) output = elim (call (join prefix key) node output) [
    | none ↦ none
    | some output' ↦ list_entries call prefix rest output'
  ]

  -- `ListAllMember`, with fuel for the depth of the document.
  unfoldable pub list_all_member : ℕ → Bytes → Node → List Member → Option (List Member)
  unfolding list_entries join
  list_all_member zero prefix node output = none
  list_all_member (suc fuel) prefix node output =
      let output' = output ++ (prefix, node) ∷ [] in
      let below =
        list_entries (λ p n o. list_all_member fuel p n o) prefix (entries node) output' in
      if not (is_valid_name prefix)
      then some output
      else if is_map node
      then below
      else some output'

  abbrev pub node_text : Node → Bytes
  node_text node = if is_scalar node then scalar node else dump node

module _ (yaml : Yaml) {V W : Type 0} (class : VarClass V W) where
  open yaml use {Node}

  unfoldable pub load_into : Registry V → W → Option ℕ → Node → Registry V × W
  load_into r w none node = (r, w)
  load_into r w (some p) node =
      let (r', w', good) = class.read_text p (node_text yaml node) r w in (r', w')

  -- The body of the loop of `LoadFromYaml`.
  unfoldable pub load_member : Registry V → W → Bytes × Node → Registry V × W
  unfolding load_into
  load_member r w (prefix, node) =
      if is_empty prefix then (r, w) else load_into r w (lookup_base r (map tolower prefix)) node

  unfoldable pub load_members : Registry V → W → List (Bytes × Node) → Registry V × W
  unfolding load_member
  load_members r w [] = (r, w)
  load_members r w (m ∷ rest) = let (r', w') = load_member r w m in load_members r' w' rest

  unfoldable pub load_from_yaml : ℕ → Registry V → W → Node → Option (Registry V × W)
  unfolding list_all_member load_members
  load_from_yaml fuel r w root = elim (list_all_member yaml fuel [] root []) [
    | none ↦ none
    | some all_nodes ↦ some (load_members r w all_nodes)
  ]
