-- ===== src/Tests/Config.antt =====
-- Tests of src/config.
use simple_http_server.Base.{
  ℕ, zero, suc, ◌<◌, ◌≡◌, refl, ◌≢◌, Bool, true, false, List, [], ◌∷◌, ◌++◌, some, arith, ◌==◌, All,
  if◌then◌else◌, ==_iff, sym, ◌∙◌, subst, ap, inl, inr, not,
}
use Prim.Native.Nat.{max}
use simple_http_server.Base.Bytes.{Bytes, codes, same, same_iff, tolower}
use simple_http_server.Base.Dict.{find, find-assign}
use simple_http_server.Config.Var.{done, threw, Setting, Callback, ConfigVar, from_string}
use simple_http_server.Config.Var.Changes.{Heard, none_left, one_more, from_string_throws}
use simple_http_server.Config.Registry.{
  VarClass, Registry, pointer, is_valid_name, insert_var, lookup, lookup_or_new, null,
}
use simple_http_server.Config.Registry.Stable.{look_up_each, lookup-look_up_each}
use simple_http_server.Config.Registry.Laws.{
  lookup_or_new-IsValid, lookup-lookup_or_new, lookup_wrong_type,
}
use simple_http_server.Config.Registry.Laws
use simple_http_server.Config.Yaml.{Yaml, list_all_member, load_from_yaml}
use simple_http_server.Config.Yaml.Members.{
  In, In-cons, In-nil, Reaches, Appends, list_all_member-Appends,
}
use simple_http_server.Config.Yaml.Load.{Spares, Apart, load_from_yaml-keeps}

-- A variable of numbers, whose text is that many bytes, in a world that is a list of what was heard.
abbrev World : Type 0
World = List Bytes

abbrev count : Bytes → ℕ
count [] = 0
count (c ∷ cs) = suc (count cs)

abbrev repeat : ℕ → Bytes
repeat zero = []
repeat (suc n) = b'x' ∷ repeat n

abbrev numbers : Setting ℕ World
numbers = record {
  same_value = λ a b. a == b;
  from_text = λ t. some (count t);
  to_text = λ n. some (repeat n);
  report = λ name text w. (name ++ text) ∷ w;
}

abbrev hears : Callback ℕ World
hears old new w = done (repeat new ∷ w)

abbrev fails : Callback ℕ World
fails old new w = threw w

abbrev port : ConfigVar ℕ World
port = record {
  name = codes "port";
  description = [];
  value = 1;
  listeners = (1, hears) ∷ (2, hears) ∷ [];
}

abbrev broken : ConfigVar ℕ World
broken = record port { listeners = (1, hears) ∷ (2, fails) ∷ (3, hears) ∷ [] }

both-Heard : Heard 1 3 port.listeners [] (codes "xxx" ∷ codes "xxx" ∷ [])
both-Heard = one_more refl (one_more refl none_left)

from_string_throws_example :
    from_string numbers broken (codes "xxx") []
    ≡ (broken, codes "portxxx" ∷ codes "xxx" ∷ [], false)
from_string_throws_example =
    from_string_throws numbers broken (codes "xxx") 3 2 fails ((1, hears) ∷ []) ((3, hears) ∷ []) []
      (codes "xxx" ∷ []) (codes "xxx" ∷ []) refl refl refl (one_more refl none_left) refl

count-repeat : (n : ℕ) → count (repeat n) ≡ n
count-repeat zero = refl
count-repeat (suc n) = omega (arith, count-repeat n)

abbrev store_var :
    Registry (ConfigVar ℕ World) → ℕ → ConfigVar ℕ World → Registry (ConfigVar ℕ World)
store_var r p v = record r { var = λ q. if p == q then v else r.var q }

-- Variables of numbers, as the registry sees them.
abbrev class : VarClass (ConfigVar ℕ World) World
class = record {
  type_of = λ v. 7;
  var_name = λ v. v.name;
  read_text = λ p text r w.
      let (v, w', good) = from_string numbers (r.var p) text w in (store_var r p v, w', good);
}

abbrev registry : Registry (ConfigVar ℕ World)
registry = record { datas = (codes "port", 0) ∷ []; var = λ p. port; next = 1 }

port_is_registered : find (codes "port") registry.datas ≡ some 0
unfolding find same
port_is_registered = refl

registered_is_port :
    (name : Bytes) (p : ℕ) → find name registry.datas ≡ some p → (codes "port" ≡ name) × (0 ≡ p)
unfolding find
registered_is_port name p e = ground (arith, same_iff (codes "port") name)

registry-IsValid : Laws.IsValid class registry
registry-IsValid = record {
  allocated = λ name p e. omega (arith, (registered_is_port name p e).1);
  valid_names = λ name p e. rw (← (registered_is_port name p e).0) (unfold is_valid_name in refl);
  own_names = λ name p e. (registered_is_port name p e).0;
}

abbrev timeout : ConfigVar ℕ World
timeout = record port { name = codes "timeout" }

lookup_or_new-IsValid_example :
    Laws.IsValid class (lookup_or_new class registry 7 timeout (codes "timeout")).0
unfolding tolower
lookup_or_new-IsValid_example =
    lookup_or_new-IsValid class registry 7 timeout (codes "timeout") registry-IsValid refl

abbrev requests : List (ℕ × ConfigVar ℕ World × Bytes)
requests = (7, timeout, codes "timeout") ∷ (8, port, codes "port") ∷ []

port_found : lookup class registry 7 (codes "port") ≡ pointer 0
unfolding lookup find same
port_found = refl

lookup-look_up_each_example :
    let r' = look_up_each class registry requests in
    (class.type_of (r'.var 0) ≡ 7)
    × (r'.var 0 ≡ port)
    × (lookup class r' 7 (codes "port") ≡ pointer 0)
    × ((wanted : ℕ) → wanted ≢ 7 → lookup class r' wanted (codes "port") ≡ null)
unfolding tolower
lookup-look_up_each_example =
    lookup-look_up_each class registry requests 7 0 (codes "port") registry-IsValid
      (refl, (refl, tt)) port_found

-- A document with maps and scalars.
mutual
  data Tree : Type 0 where
    leaf : Bytes → Tree
    fork : Forest → Tree

  data Forest : Type 0 where
    nil : Forest
    cons : Bytes → Tree → Forest → Forest

mutual
  height : Tree → ℕ
  height (leaf s) = 0
  height (fork f) = suc (heights f)

  heights : Forest → ℕ
  heights nil = 0
  heights (cons k t f) = max (height t) (heights f)

abbrev children : Forest → List (Bytes × Tree)
children nil = []
children (cons k t f) = (k, t) ∷ children f

children_below : (f : Forest) (d : ℕ) → heights f < d → All (λ e. height e.1 < d) (children f)
unfolding heights height
children_below nil d h = tt
children_below (cons k t f) d h = (omega arith, children_below f d (omega arith))

abbrev entries_of : Tree → List (Bytes × Tree)
entries_of (leaf s) = []
entries_of (fork f) = children f

entries_of_below : (t : Tree) → All (λ e. height e.1 < height t) (entries_of t)
unfolding height
entries_of_below (leaf s) = tt
entries_of_below (fork f) = children_below f (suc (heights f)) (omega arith)

abbrev is_fork : Tree → Bool
is_fork (leaf s) = false
is_fork (fork f) = true

abbrev leaf_text : Tree → Bytes
leaf_text (leaf s) = s
leaf_text (fork f) = []

abbrev trees : Yaml
trees = record {
  Node = Tree;
  is_map = is_fork;
  entries = entries_of;
  is_scalar = λ t. not (is_fork t);
  scalar = leaf_text;
  dump = leaf_text;
  depth = height;
  entries_below = entries_of_below;
}

-- port: xxx, and a key that is no valid name.
abbrev document : Tree
document =
    fork (cons (codes "Port") (leaf (codes "x")) (cons (codes "port") (leaf (codes "xxx")) nil))

list_document :
    list_all_member trees 3 [] document []
    ≡ some (([], document) ∷ (codes "port", leaf (codes "xxx")) ∷ [])
unfolding list_all_member is_valid_name
list_document = refl

document_depth : height document < 3
unfolding height heights
document_depth = omega arith

list_all_member-Appends_example :
    Appends trees (Reaches trees [] document) [] (list_all_member trees 3 [] document [])
list_all_member-Appends_example = list_all_member-Appends trees 3 [] document [] document_depth

-- The variables "port" and "timeout", and a listener that registers a variable "extra".
abbrev two_registered : Registry (ConfigVar ℕ World)
two_registered = record {
  datas = (codes "port", 0) ∷ (codes "timeout", 1) ∷ [];
  var = λ p. if p == 0 then port else timeout;
  next = 2;
}

abbrev registering : VarClass (ConfigVar ℕ World) World
registering = record class {
  read_text = λ p text r w.
      let (r', w', good) = class.read_text p text r w in
      (insert_var r' (codes "extra") port, w', good);
}

registering-Apart : (q : ℕ) → Apart registering q
registering-Apart q p text r w made other = record {
  same_var = ground (arith, made, ==_iff p q, other);
  no_new_name = λ name e. ground (arith, made, e, find-assign (codes "extra") name r.next r.datas);
  still_made = omega arith;
}

not_named :
    (name : Bytes) (target : Tree)
    → Reaches trees [] document name target
    → name ≢ []
    → find name two_registered.datas ≢ some 1
unfolding find same
not_named name target way ne e =
    let listed = list_all_member-Appends_example in
    let more : some listed.more ≡ some (([], document) ∷ (codes "port", leaf (codes "xxx")) ∷ []) =
      sym listed.result ∙ list_document in
    let all : listed.more ≡ ([], document) ∷ (codes "port", leaf (codes "xxx")) ∷ [] =
      ground (arith, more) in
    elim (In-cons (subst (λ ms. In (name, target) ms) all (listed.complete name target way))) [
      | inl root ↦ ne (sym (ap (λ (m : Bytes × Tree). m.0) root))
      | inr below ↦ elim (In-cons below) [
        | inl port_node ↦
            let named : codes "port" ≡ name = ap (λ (m : Bytes × Tree). m.0) port_node in
            ground (arith, subst (λ n. find n two_registered.datas ≡ some 1) (sym named) e)
        | inr nowhere ↦ In-nil refl nowhere
      ]
    ]

load_from_yaml-keeps_example :
    (r' : Registry (ConfigVar ℕ World)) × (w' : World) × (load_from_yaml trees registering 3
        two_registered [] document
      ≡ some (r', w'))
    × Spares 1 two_registered r'
load_from_yaml-keeps_example =
    load_from_yaml-keeps trees registering 3 two_registered [] document 1 document_depth
      (omega arith) (registering-Apart 1) not_named
