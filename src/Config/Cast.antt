-- ===== src/Config/Cast.antt =====
-- src/config/config.h: `Lexical_cast` between YAML text and the containers of the standard library.
pub mod RoundTrip
pub mod Sets
pub mod Maps
pub mod Order
use simple_http_server.Base.{
  Bool, true, false, ◌||◌, List, [], ◌∷◌, ◌++◌, Option, none, some, if◌then◌else◌,
}
use simple_http_server.Base.Bytes.{Bytes}
use simple_http_server.Base.Dict.{Dict, find, assign}

-- The YAML library, as far as these conversions use it; `none` is an exception of `load`.
-- `items` are the nodes of a sequence, `entries` those of a map with the scalars of their keys;
-- `of_list` is what pushing the nodes to an empty node makes, and `of_map` what assigning them.
pub record YamlList : Type 1 where
  pub Node : Type 0
  pub load : Bytes → Option Node
  pub items : Node → List Node
  pub entries : Node → List (Bytes × Node)
  pub of_list : List Node → Node
  pub of_map : List (Bytes × Node) → Node
  pub emit : Node → Bytes

-- The conversions of the elements, which may throw.
pub record Element (T : Type 0) : Type 0 where
  pub from_text : Bytes → Option T
  pub to_text : T → Option Bytes

-- An exception ends a conversion.
abbrev pub then_cast : {A B : Type 0} → Option A → (A → Option B) → Option B
then_cast none k = none
then_cast (some a) k = k a

-- `push_back`
abbrev pub push_back : {T : Type 0} → List T → T → List T
push_back res t = res ++ t ∷ []

-- `std::set::insert`, by the `operator<` of the elements.
unfoldable pub insert : {T : Type 0} → (T → T → Bool) → List T → T → List T
insert lt [] t = t ∷ []
insert lt (u ∷ us) t = if lt t u then t ∷ u ∷ us else if lt u t then u ∷ insert lt us t else u ∷ us

abbrev pub contains : {T : Type 0} → (T → T → Bool) → List T → T → Bool
contains eq [] t = false
contains eq (u ∷ us) t = eq u t || contains eq us t

-- `std::unordered_set::insert`: an element that is not there goes where `place` puts it.
unfoldable pub insert_unordered :
    {T : Type 0} → (T → T → Bool) → (List T → T → List T) → List T → T → List T
insert_unordered eq place res t = if contains eq res t then res else place res t

-- `insert` of a pair does not change an entry that is there.
abbrev pub absent_else : {A B : Type 0} → Option A → B → B → B
absent_else none new old = new
absent_else (some a) new old = old

unfoldable pub insert_entry : {T : Type 0} → Dict T → Bytes → T → Dict T
insert_entry m k t = absent_else (find k m) (assign k t m) m

unfoldable pub insert_entry_unordered :
    {T : Type 0} → (Dict T → Bytes → T → Dict T) → Dict T → Bytes → T → Dict T
insert_entry_unordered place m k t = absent_else (find k m) (place m k t) m

module _ (yaml : YamlList) {T : Type 0} (element : Element T) where
  open yaml use {Node, load, items, entries, of_list, of_map, emit}

  -- The loop over the nodes, with the elements read so far, which `add` takes another to.
  unfoldable pub read_each : (List T → T → List T) → List Node → List T → Option (List T)
  read_each add [] res = some res
  read_each add (n ∷ rest) res =
      then_cast (element.from_text (emit n)) (λ t. read_each add rest (add res t))

  -- `Lexical_cast<std::string, std::vector<T>>`
  unfoldable pub vector_of_text : Bytes → Option (List T)
  unfolding read_each
  vector_of_text f = then_cast (load f) (λ node. read_each push_back (items node) [])

  -- `Lexical_cast<std::string, std::list<T>>`, the same for a list.
  unfoldable pub list_of_text : Bytes → Option (List T)
  unfolding read_each
  list_of_text f = then_cast (load f) (λ node. read_each push_back (items node) [])

  -- `Lexical_cast<std::string, std::set<T>>`
  unfoldable pub set_of_text : (T → T → Bool) → Bytes → Option (List T)
  unfolding read_each insert
  set_of_text lt f = then_cast (load f) (λ node. read_each (insert lt) (items node) [])

  -- `Lexical_cast<std::string, std::unordered_set<T>>`
  unfoldable pub unordered_set_of_text :
      (T → T → Bool) → (List T → T → List T) → Bytes → Option (List T)
  unfolding read_each insert_unordered
  unordered_set_of_text eq place f =
      then_cast (load f) (λ node. read_each (insert_unordered eq place) (items node) [])

  unfoldable pub node_of : T → Option Node
  node_of t = then_cast (element.to_text t) load

  -- The loop that pushes the nodes of the elements.
  unfoldable pub nodes_of : List T → Option (List Node)
  unfolding node_of
  nodes_of [] = some []
  nodes_of (t ∷ rest) = then_cast (node_of t) (λ n. then_cast (nodes_of rest) (λ ns. some (n ∷ ns)))

  -- `Lexical_cast<std::vector<T>, std::string>`
  unfoldable pub text_of_vector : List T → Option Bytes
  unfolding nodes_of
  text_of_vector f = then_cast (nodes_of f) (λ ns. some (emit (of_list ns)))

  -- `Lexical_cast<std::list<T>, std::string>`, the same for a list.
  unfoldable pub text_of_list : List T → Option Bytes
  unfolding nodes_of
  text_of_list f = then_cast (nodes_of f) (λ ns. some (emit (of_list ns)))

  -- `Lexical_cast<std::set<T>, std::string>`, over the elements in order.
  unfoldable pub text_of_set : List T → Option Bytes
  unfolding nodes_of
  text_of_set f = then_cast (nodes_of f) (λ ns. some (emit (of_list ns)))

  -- `Lexical_cast<std::unordered_set<T>, std::string>`, over the elements as they stand in it.
  unfoldable pub text_of_unordered_set : List T → Option Bytes
  unfolding nodes_of
  text_of_unordered_set f = then_cast (nodes_of f) (λ ns. some (emit (of_list ns)))

  -- The loop over the entries of a map's node.
  unfoldable pub read_entries :
      (Dict T → Bytes → T → Dict T) → List (Bytes × Node) → Dict T → Option (Dict T)
  read_entries add [] res = some res
  read_entries add ((k, n) ∷ rest) res =
      then_cast (element.from_text (emit n)) (λ t. read_entries add rest (add res k t))

  -- `Lexical_cast<std::string, std::map<std::string, T>>`
  unfoldable pub map_of_text : Bytes → Option (Dict T)
  unfolding read_entries insert_entry
  map_of_text f = then_cast (load f) (λ node. read_entries insert_entry (entries node) [])

  -- `Lexical_cast<std::string, std::unordered_map<std::string, T>>`
  unfoldable pub unordered_map_of_text : (Dict T → Bytes → T → Dict T) → Bytes → Option (Dict T)
  unfolding read_entries insert_entry_unordered
  unordered_map_of_text place f =
      then_cast (load f) (λ node. read_entries (insert_entry_unordered place) (entries node) [])

  -- The loop that assigns the nodes of the entries.
  unfoldable pub entry_nodes : Dict T → Option (List (Bytes × Node))
  unfolding node_of
  entry_nodes [] = some []
  entry_nodes ((k, t) ∷ rest) =
      then_cast (node_of t) (λ n. then_cast (entry_nodes rest) (λ ns. some ((k, n) ∷ ns)))

  -- `Lexical_cast<std::map<std::string, T>, std::string>`
  unfoldable pub text_of_map : Dict T → Option Bytes
  unfolding entry_nodes
  text_of_map f = then_cast (entry_nodes f) (λ ns. some (emit (of_map ns)))

  -- `Lexical_cast<std::unordered_map<std::string, T>, std::string>`
  unfoldable pub text_of_unordered_map : Dict T → Option Bytes
  unfolding entry_nodes
  text_of_unordered_map f = then_cast (entry_nodes f) (λ ns. some (emit (of_map ns)))
