-- ===== src/Config/Cast/RoundTrip.antt =====
-- A sequence is read back from the text that is written for it.
use simple_http_server.Base.{
  ◌≡◌, refl, sym, ap, ◌∙◌, List, [], ◌∷◌, ◌++◌, some, append_assoc, append-nil,
}
use simple_http_server.Base.Bytes.{Bytes}
use simple_http_server.Config.Cast.{
  YamlList, Element, push_back, read_each, list_of_text, vector_of_text, node_of, nodes_of,
  text_of_list, text_of_vector,
}

-- Elements added one by one.
unfoldable pub add_each : {T : Type 0} → (List T → T → List T) → List T → List T → List T
add_each add res [] = res
add_each add res (t ∷ ts) = add_each add (add res t) ts

add_each-push_back : {T : Type 0} (res ts : List T) → add_each push_back res ts ≡ res ++ ts
unfolding add_each
add_each-push_back res [] = sym (append-nil res)
add_each-push_back res (t ∷ ts) =
    add_each-push_back (push_back res t) ts ∙ append_assoc res (t ∷ []) ts

module _ (yaml : YamlList) {T : Type 0} (element : Element T) where
  open yaml use {Node, load, items, of_list, emit}

  -- The element is read back from the node that is made of it.
  pub record ReadsBack (t : T) : Type 0 where
    pub node : Node
    pub made : node_of yaml element t ≡ some node
    pub read : element.from_text (emit node) ≡ some t

  -- The nodes of elements that are read back: the loop adds the elements one by one.
  pub record AreNodes (add : List T → T → List T) (ts : List T) : Type 0 where
    pub nodes : List Node
    pub made : nodes_of yaml element ts ≡ some nodes
    pub read : (res : List T) → read_each yaml element add nodes res ≡ some (add_each add res ts)

  pub nodes_of-AreNodes :
      (add : List T → T → List T) (ts : List T) → ((t : T) → ReadsBack t) → AreNodes add ts
  unfolding nodes_of read_each add_each
  nodes_of-AreNodes add [] back = record { nodes = []; made = refl; read = λ res. refl }
  nodes_of-AreNodes add (t ∷ ts) back =
      let b = back t in
      let r = nodes_of-AreNodes add ts back in
      record {
        nodes = b.node ∷ r.nodes;
        made = rw (b.made, r.made) refl;
        read = λ res. rw (b.read) (r.read (add res t));
      }

  -- The YAML library gives back the nodes of this sequence once it has written them.
  abbrev pub ReadsList : List T → Type 0
  ReadsList ts =
      (ns : List Node)
      → nodes_of yaml element ts ≡ some ns
      → (n : Node) × (load (emit (of_list ns)) ≡ some n) × (items n ≡ ns)

  -- A sequence can be written as YAML text, and is read back from that text, if each element is
  -- read back from its node, and the YAML library gives back the nodes of this sequence once it has
  -- written them.
  pub list_of_text-text_of_list :
      (ts : List T)
      → ((t : T) → ReadsBack t)
      → ((ns : List Node)
          → nodes_of yaml element ts ≡ some ns
          → (n : Node) × (load (emit (of_list ns)) ≡ some n) × (items n ≡ ns))
      → (s : Bytes) × (text_of_list yaml element ts ≡ some s)
        × (list_of_text yaml element s ≡ some ts)
  unfolding list_of_text text_of_list
  list_of_text-text_of_list ts back whole =
      let r = nodes_of-AreNodes push_back ts back in
      let (n, loaded, same_items) = whole r.nodes r.made in
      (
        emit (of_list r.nodes),
        rw (r.made) refl,
        rw (loaded, same_items) (r.read [] ∙ ap some (add_each-push_back [] ts)),
      )

  -- The same for a vector.
  vector_of_text-text_of_vector :
      (ts : List T)
      → ((t : T) → ReadsBack t)
      → ReadsList ts
      → (s : Bytes) × (text_of_vector yaml element ts ≡ some s)
        × (vector_of_text yaml element s ≡ some ts)
  unfolding vector_of_text text_of_vector list_of_text text_of_list
  vector_of_text-text_of_vector = list_of_text-text_of_list
