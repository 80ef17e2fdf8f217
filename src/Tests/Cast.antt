-- ===== src/Tests/Cast.antt =====
-- Tests of the conversions of containers.
use simple_http_server.Base.{
  ℕ, true, false, ltb, arith, ◌≡◌, refl, ap, subst, List, [], ◌∷◌, ◌++◌, Option, none, some, map,
}
use simple_http_server.Base.Bytes.{Bytes}
use simple_http_server.Config.Cast.{YamlList, Element, node_of, nodes_of, set_of_text, text_of_set}
use simple_http_server.Config.Cast.Sets.{IsSorted, set_of_text-text_of_set}
use simple_http_server.Config.Cast.RoundTrip.{ReadsBack}

abbrev flatten : List Bytes → Bytes
flatten [] = []
flatten (n ∷ ns) = n ++ flatten ns

-- Keys and nodes of one byte each.
abbrev pairs : Bytes → List (Bytes × Bytes)
pairs [] = []
pairs (k ∷ []) = []
pairs (k ∷ n ∷ rest) = (k ∷ [], n ∷ []) ∷ pairs rest

abbrev flatten_pairs : List (Bytes × Bytes) → Bytes
flatten_pairs [] = []
flatten_pairs ((k, n) ∷ es) = k ++ (n ++ flatten_pairs es)

-- A library whose sequences and maps are written without a sign between their elements, and
-- elements that are written as one byte.
abbrev bytes_yaml : YamlList
bytes_yaml = record {
  Node = Bytes;
  load = some;
  items = map (λ b. b ∷ []);
  of_list = flatten;
  entries = pairs;
  of_map = flatten_pairs;
  emit = λ n. n;
}

abbrev first_byte : Bytes → Option ℕ
first_byte [] = none
first_byte (b ∷ bs) = some b

abbrev byte : Element ℕ
byte = record { from_text = first_byte; to_text = λ b. some (b ∷ []) }

byte-ReadsBack : (b : ℕ) → ReadsBack bytes_yaml byte b
unfolding node_of
byte-ReadsBack b = record { node = b ∷ []; made = refl; read = refl }

abbrev two_nodes : List Bytes
two_nodes = (3 ∷ []) ∷ (4 ∷ []) ∷ []

abbrev or_empty : Option (List Bytes) → List Bytes
or_empty none = []
or_empty (some ns) = ns

two_nodes-read :
    (ns : List Bytes)
    → nodes_of bytes_yaml byte (3 ∷ 4 ∷ []) ≡ some ns
    → (n : Bytes) × (some (flatten ns) ≡ some n) × (map (λ b. b ∷ []) n ≡ ns)
unfolding nodes_of
two_nodes-read ns e =
    (flatten ns, refl, subst (λ ms. map (λ b. b ∷ []) (flatten ms) ≡ ms) (ap or_empty e) refl)

-- Sets of bytes, in the order of the numbers.
abbrev two_sorted : IsSorted ltb (3 ∷ 4 ∷ [])
two_sorted = ((refl, tt), (tt, tt))

ltb-asym : (a b : ℕ) → ltb a b ≡ true → ltb b a ≡ false
ltb-asym a b h = ground (arith, h)

set_of_text-text_of_set_example :
    (s : Bytes) × (text_of_set bytes_yaml byte (3 ∷ 4 ∷ []) ≡ some s)
    × (set_of_text bytes_yaml byte ltb s ≡ some (3 ∷ 4 ∷ []))
set_of_text-text_of_set_example =
    set_of_text-text_of_set bytes_yaml byte (3 ∷ 4 ∷ []) ltb ltb-asym two_sorted byte-ReadsBack
      two_nodes-read
