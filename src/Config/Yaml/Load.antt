-- ===== src/Config/Yaml/Load.antt =====
-- Which variables `LoadFromYaml` changes, and to what.
use simple_http_server.Base.{
  ℕ, ◌<◌, ◌≤◌, ◌≡◌, refl, ◌∙◌, ap, ◌≢◌, List, [], ◌∷◌, map, Option, none, some, arith,
}
use simple_http_server.Base.Bytes.{Bytes, tolower}
use simple_http_server.Base.Dict.{find}
use simple_http_server.Config.Registry.{VarClass, Registry}
use simple_http_server.Config.Registry.Laws.{map-tolower}
use simple_http_server.Config.Yaml.{
  Yaml, node_text, load_into, load_member, load_members, load_from_yaml,
}
use simple_http_server.Config.Yaml.Members.{
  In, here, there, Reaches, Reaches-name, list_all_member-Appends,
}

module _ {V : Type 0} where
  -- A variable is as it was, and no more names lead to it.
  pub record Spares (q : ℕ) (r r' : Registry V) : Type 0 where
    pub same_var : r'.var q ≡ r.var q
    pub no_new_name : (name : Bytes) → find name r'.datas ≡ some q → find name r.datas ≡ some q
    pub still_made : r.next ≤ r'.next

  Spares-refl : (q : ℕ) (r : Registry V) → Spares q r r
  Spares-refl q r = record { same_var = refl; no_new_name = λ name e. e; still_made = omega arith }

  Spares-trans : {q : ℕ} {r s t : Registry V} → Spares q r s → Spares q s t → Spares q r t
  Spares-trans a b = record {
    same_var = b.same_var ∙ a.same_var;
    no_new_name = λ name e. a.no_new_name name (b.no_new_name name e);
    still_made = omega (arith, a.still_made, b.still_made);
  }

-- `fromString` of every other variable leaves this one alone, once it has been made, whatever else
-- it does.
abbrev pub Apart : {V W : Type 0} → VarClass V W → ℕ → Type 0
Apart {V} {W} class q =
    (p : ℕ) (text : Bytes) (r : Registry V) (w : W)
    → q < r.next
    → p ≢ q
    → Spares q r (class.read_text p text r w).0

module _ (yaml : Yaml) {V W : Type 0} (class : VarClass V W) where
  open yaml use {Node, depth}

  -- The member's name leads to the variable at `q`.
  abbrev Addresses : Registry V → ℕ → Bytes × Node → Type 0
  Addresses r q m = (m.0 ≢ []) × (find (map tolower m.0) r.datas ≡ some q)

  load_into-Spares :
      (r : Registry V) (w : W) (o : Option ℕ) (node : Node) (q : ℕ)
      → Apart class q
      → q < r.next
      → o ≢ some q
      → Spares q r (load_into yaml class r w o node).0
  unfolding load_into
  load_into-Spares r w none node q apart l ne = Spares-refl q r
  load_into-Spares r w (some p) node q apart l ne =
      apart p (node_text yaml node) r w l (λ e. ne (ap some e))

  load_member-Spares :
      (r : Registry V) (w : W) (m : Bytes × Node) (q : ℕ)
      → Apart class q
      → q < r.next
      → ¬ Addresses r q m
      → Spares q r (load_member yaml class r w m).0
  unfolding load_member
  load_member-Spares r w ([], node) q apart l h = Spares-refl q r
  load_member-Spares r w (c ∷ name, node) q apart l h =
      load_into-Spares r w (find (map tolower (c ∷ name)) r.datas) node q apart l
        (λ e. h ((λ f. cc), e))

  load_members-Spares :
      (ms : List (Bytes × Node)) (r : Registry V) (w : W) (q : ℕ)
      → Apart class q
      → q < r.next
      → ((m : Bytes × Node) → In m ms → ¬ Addresses r q m)
      → Spares q r (load_members yaml class r w ms).0
  unfolding load_members
  load_members-Spares [] r w q apart l h = Spares-refl q r
  load_members-Spares (m ∷ ms) r w q apart l h =
      let one = load_member-Spares r w m q apart l (h m (here refl)) in
      let (r', w') = load_member yaml class r w m in
      Spares-trans one (
        load_members-Spares ms r' w' q apart (omega (arith, l, one.still_made))
          (λ n i a. h n (there i) (a.0, one.no_new_name (map tolower n.0) a.1)))

  -- With fuel above the depth of the document `LoadFromYaml` comes back if every `fromString`
  -- that it calls does. A variable that is there at the beginning is left alone and gets no other
  -- name, if the document reaches no node under a name that leads to it then, and if `fromString`
  -- of every other variable leaves it alone and gives it no other name: listeners may register
  -- variables and set others all the same.
  pub load_from_yaml-keeps :
      (fuel : ℕ) (r : Registry V) (w : W) (root : Node) (q : ℕ)
      → depth root < fuel
      → q < r.next
      → Apart class q
      → ((name : Bytes) (target : Node)
          → Reaches yaml [] root name target
          → name ≢ []
          → find name r.datas ≢ some q)
      → (r' : Registry V) × (w' : W) × (load_from_yaml yaml class fuel r w root ≡ some (r', w'))
        × Spares q r r'
  unfolding load_from_yaml
  load_from_yaml-keeps fuel r w root q deep made apart unnamed =
      let listed = list_all_member-Appends yaml fuel [] root [] deep in
      let loaded = load_members yaml class r w listed.more in
      (
        loaded.0,
        loaded.1,
        rw (listed.result, load_from_yaml) refl,
        load_members-Spares listed.more r w q apart made (λ m i a.
            let way = listed.sound m.0 m.1 i in
            unnamed m.0 m.1 way a.0 (rw (map-tolower m.0 (Reaches-name yaml way)) at a.1)),
      )
