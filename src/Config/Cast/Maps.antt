-- ===== src/Config/Cast/Maps.antt =====
-- Maps and unordered maps are read back from the text that is written for them.
use simple_http_server.Base.{
  ◌≡◌, refl, sym, ap, ◌∙◌, true, List, [], ◌∷◌, ◌++◌, Option, none, some, All, All-append,
  append_assoc, append-nil, if◌then◌else◌, arith,
}
use simple_http_server.Base.Bytes.{Bytes, same, same_iff, before}
use simple_http_server.Base.Before.{before_asym, before-same}
use simple_http_server.Base.Dict.{Dict, find, assign}
use simple_http_server.Config.Cast.{
  YamlList, Element, insert_entry, insert_entry_unordered, read_entries, entry_nodes, text_of_map,
  text_of_unordered_map, map_of_text, unordered_map_of_text,
}
use simple_http_server.Config.Cast.RoundTrip.{ReadsBack}

-- Entries added one by one.
add_entries : {T : Type 0} → (Dict T → Bytes → T → Dict T) → Dict T → Dict T → Dict T
add_entries add res [] = res
add_entries add res ((k, t) ∷ m) = add_entries add (add res k t) m

module _ (yaml : YamlList) {T : Type 0} (element : Element T) where
  open yaml use {Node, load, entries, of_map, emit}

  -- The nodes of entries that are read back: the loop adds the entries one by one.
  record AreEntries (add : Dict T → Bytes → T → Dict T) (m : Dict T) : Type 0 where
    nodes : List (Bytes × Node)
    made : entry_nodes yaml element m ≡ some nodes
    read : (res : Dict T) → read_entries yaml element add nodes res ≡ some (add_entries add res m)

  entry_nodes-AreEntries :
      (add : Dict T → Bytes → T → Dict T) (m : Dict T)
      → ((t : T) → ReadsBack yaml element t)
      → AreEntries add m
  unfolding entry_nodes read_entries add_entries
  entry_nodes-AreEntries add [] back = record { nodes = []; made = refl; read = λ res. refl }
  entry_nodes-AreEntries add ((k, t) ∷ m) back =
      let b = back t in
      let r = entry_nodes-AreEntries add m back in
      record {
        nodes = (k, b.node) ∷ r.nodes;
        made = rw (b.made, r.made) refl;
        read = λ res. rw (b.read) (r.read (add res k t));
      }

  -- The YAML library gives back the nodes of this map once it has written them.
  abbrev pub ReadsMap : Dict T → Type 0
  ReadsMap m =
      (ns : List (Bytes × Node))
      → entry_nodes yaml element m ≡ some ns
      → (n : Node) × (load (emit (of_map ns)) ≡ some n) × (entries n ≡ ns)

-- Keys in increasing order, each before all that follow.
abbrev pub IsSorted : {T : Type 0} → Dict T → Type 0
IsSorted [] = Unit
IsSorted ((k, t) ∷ m) = All (λ e. before k e.0 ≡ true) m × IsSorted m

-- Every key of the first map is before every one of the second.
abbrev IsBelow : {T : Type 0} → Dict T → Dict T → Type 0
IsBelow res m = All (λ e. All (λ d. before d.0 e.0 ≡ true) res) m

module _ {T : Type 0} where
  find-below : (k : Bytes) (m : Dict T) → All (λ d. before d.0 k ≡ true) m → find k m ≡ none
  unfolding find
  find-below k [] h = refl
  find-below k ((j, w) ∷ m) (h, hs) = rw (before-same j k h) (find-below k m hs)

  assign-below :
      (k : Bytes) (t : T) (m : Dict T)
      → All (λ d. before d.0 k ≡ true) m
      → assign k t m ≡ m ++ (k, t) ∷ []
  unfolding assign
  assign-below k t [] h = refl
  assign-below k t ((j, w) ∷ m) (h, hs) =
      rw (before-same j k h, before_asym j k h) (ap (λ r. (j, w) ∷ r) (assign-below k t m hs))

  insert_entry-below :
      (k : Bytes) (t : T) (m : Dict T)
      → All (λ d. before d.0 k ≡ true) m
      → insert_entry m k t ≡ m ++ (k, t) ∷ []
  unfolding insert_entry
  insert_entry-below k t m h = rw (find-below k m h) (assign-below k t m h)

  IsBelow-push :
      (res : Dict T) (k : Bytes) (t : T) (m : Dict T)
      → IsBelow res m
      → All (λ e. before k e.0 ≡ true) m
      → IsBelow (res ++ (k, t) ∷ []) m
  IsBelow-push res k t [] b h = b
  IsBelow-push res k t ((j, u) ∷ m) (b, bs) (h, hs) = (
    All-append (λ d. before d.0 j ≡ true) res ((k, t) ∷ []) b (h, tt),
    IsBelow-push res k t m bs hs,
  )

  IsBelow-nil : (m : Dict T) → IsBelow {T = T} [] m
  IsBelow-nil [] = tt
  IsBelow-nil ((k, t) ∷ m) = (tt, IsBelow-nil m)

  add_entries-insert :
      (res m : Dict T) → IsBelow res m → IsSorted m → add_entries insert_entry res m ≡ res ++ m
  unfolding add_entries
  add_entries-insert res [] b o = sym (append-nil res)
  add_entries-insert res ((k, t) ∷ m) (b, bs) (h, o) = rw (insert_entry-below k t res b) (
      add_entries-insert (res ++ (k, t) ∷ []) m (IsBelow-push res k t m bs h) o
      ∙ append_assoc res ((k, t) ∷ []) m)

  -- The first of two results that is there.
  abbrev or_else : Option T → Option T → Option T
  or_else none other = other
  or_else (some t) other = some t

  module _ (place : Dict T → Bytes → T → Dict T)
      (places : (m : Dict T) (k : Bytes) (t : T) (j : Bytes)
        → find j (place m k t) ≡ (if same k j then some t else find j m)) where
    find-insert_entry_unordered :
        (m : Dict T) (k : Bytes) (t : T) (j : Bytes)
        → find j (insert_entry_unordered place m k t)
          ≡ or_else (find j m) (if same k j then some t else none)
    unfolding insert_entry_unordered
    find-insert_entry_unordered m k t j = ground (arith, places m k t j, same_iff k j)

    find-add_entries :
        (res m : Dict T) (j : Bytes)
        → find j (add_entries (insert_entry_unordered place) res m)
          ≡ or_else (find j res) (find j m)
    unfolding add_entries find
    find-add_entries res [] j = ground arith
    find-add_entries res ((k, t) ∷ m) j = ground (
      arith,
      find-add_entries (insert_entry_unordered place res k t) m j,
      find-insert_entry_unordered res k t j,
    )

-- A map, whose keys are in increasing order, can be written as YAML text and is read back from
-- that text, if each value is read back from its node, and the YAML library gives back the entries
-- of this map once it has written them.
pub map_of_text-text_of_map :
    (yaml : YamlList) {T : Type 0} (element : Element T) (m : Dict T)
    → IsSorted m
    → ((t : T) → ReadsBack yaml element t)
    → ReadsMap yaml element m
    → (s : Bytes) × (text_of_map yaml element m ≡ some s) × (map_of_text yaml element s ≡ some m)
unfolding map_of_text text_of_map
map_of_text-text_of_map yaml element m o back whole =
    let r = entry_nodes-AreEntries yaml element insert_entry m back in
    let (n, loaded, same_entries) = whole r.nodes r.made in
    (
      yaml.emit (yaml.of_map r.nodes),
      rw (r.made) refl,
      rw (loaded, same_entries) (r.read [] ∙ ap some (add_entries-insert [] m (IsBelow-nil m) o)),
    )

-- An unordered map can be written as YAML text, and what is read back from that text has the same
-- value under every key, wherever the insertion of a new entry puts it, if each value is read back
-- from its node, and the YAML library gives back the entries of this map once it has written them.
pub find-unordered_map_of_text :
    (yaml : YamlList) {T : Type 0} (element : Element T) (m : Dict T)
    (place : Dict T → Bytes → T → Dict T)
    → ((r : Dict T) (k : Bytes) (t : T) (j : Bytes)
        → find j (place r k t) ≡ (if same k j then some t else find j r))
    → ((t : T) → ReadsBack yaml element t)
    → ReadsMap yaml element m
    → (s : Bytes) × (r : Dict T) × (text_of_unordered_map yaml element m ≡ some s)
      × (unordered_map_of_text yaml element place s ≡ some r)
      × ((j : Bytes) → find j r ≡ find j m)
unfolding unordered_map_of_text text_of_unordered_map find
find-unordered_map_of_text yaml element m place places back whole =
    let r = entry_nodes-AreEntries yaml element (insert_entry_unordered place) m back in
    let (n, loaded, same_entries) = whole r.nodes r.made in
    (
      yaml.emit (yaml.of_map r.nodes),
      add_entries (insert_entry_unordered place) [] m,
      rw (r.made) refl,
      rw (loaded, same_entries) (r.read []),
      λ j. find-add_entries place places [] m j,
    )
