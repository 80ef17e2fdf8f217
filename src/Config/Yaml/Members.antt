-- ===== src/Config/Yaml/Members.antt =====
-- What `ListAllMember` lists: exactly the nodes that are reached by valid names.
use simple_http_server.Base.{
  ℕ, zero, suc, ◌<◌, ◌≡◌, refl, ◌∙◌, ap, true, false, List, [], ◌∷◌, ◌++◌, Option, some, arith,
  Bool-cases, inl, inr, ◌⊎◌, All, append_assoc, append-nil, sym, subst,
}
use simple_http_server.Base.Bytes.{Bytes}
use simple_http_server.Config.Registry.{is_valid_name}
use simple_http_server.Config.Yaml.{Yaml, join, list_entries, list_all_member}

-- `x` is in the list, with its place.
pub data In {ℓ} {A : Type ℓ} (x : A) : List A → Type ℓ where
  here : {y : A} {xs : List A} → y ≡ x → In x (y ∷ xs)
  there : {y : A} {xs : List A} → In x xs → In x (y ∷ xs)

pub In-nil {ℓ} : {A : Type ℓ} {x : A} {xs : List A} → xs ≡ [] → In x xs → ⊥
In-nil e (here h) = cc
In-nil e (there i) = cc

In-append_left {ℓ} : {A : Type ℓ} {x : A} (xs ys : List A) → In x xs → In x (xs ++ ys)
In-append_left [] ys i = absurd (In-nil refl i)
In-append_left (y ∷ xs) ys (here e) = here e
In-append_left (y ∷ xs) ys (there i) = there (In-append_left xs ys i)

In-append_right {ℓ} : {A : Type ℓ} {x : A} (xs ys : List A) → In x ys → In x (xs ++ ys)
In-append_right [] ys i = i
In-append_right (y ∷ xs) ys i = there (In-append_right xs ys i)

In-append {ℓ} : {A : Type ℓ} {x : A} (xs ys : List A) → In x (xs ++ ys) → In x xs ⊎ In x ys
In-append [] ys i = inr i
In-append (y ∷ xs) ys (here e) = inl (here e)
In-append (y ∷ xs) ys (there i) = elim (In-append xs ys i) [
  | inl left ↦ inl (there left)
  | inr right ↦ inr right
]

pub In-cons {ℓ} : {A : Type ℓ} {x y : A} {xs : List A} → In x (y ∷ xs) → (y ≡ x) ⊎ In x xs
In-cons (here e) = inl e
In-cons (there i) = inr i

All-map {ℓ κ μ} :
    {A : Type ℓ} {P : A → Type κ} {Q : A → Type μ}
    → ((a : A) → P a → Q a)
    → (xs : List A) → All P xs
    → All Q xs
All-map f [] h = tt
All-map f (x ∷ xs) h = (f x h.0, All-map f xs h.1)

module _ (yaml : Yaml) where
  open yaml use {Node, is_map, entries, depth, entries_below}

  -- From a node under a prefix one comes to another by the keys of maps, each name valid.
  pub data Reaches : Bytes → Node → Bytes → Node → Type 0 where
    stop :
        {prefix : Bytes} {node : Node}
        → is_valid_name prefix ≡ true
        → Reaches prefix node prefix node
    step :
        {prefix name : Bytes} {node target : Node} (key : Bytes) (child : Node)
        → is_valid_name prefix ≡ true
        → is_map node ≡ true
        → In (key, child) (entries node)
        → Reaches (join prefix key) child name target
        → Reaches prefix node name target

  -- A call that comes back has appended exactly the members with the property.
  pub record Appends (P : Bytes → Node → Type 0) (output : List (Bytes × Node))
      (r : Option (List (Bytes × Node))) : Type 0 where
    pub more : List (Bytes × Node)
    pub result : r ≡ some (output ++ more)
    pub sound : (name : Bytes) (target : Node) → In (name, target) more → P name target
    pub complete : (name : Bytes) (target : Node) → P name target → In (name, target) more

  -- Reached through one of the entries.
  abbrev Below : Bytes → List (Bytes × Node) → Bytes → Node → Type 0
  Below prefix es name target =
      (key : Bytes) × (child : Node) × In (key, child) es
      × Reaches (join prefix key) child name target

  abbrev CallsRight :
      (Bytes → Node → List (Bytes × Node) → Option (List (Bytes × Node)))
      → Bytes
      → Bytes × Node
      → Type 0
  CallsRight call prefix e =
      (output : List (Bytes × Node))
      → Appends (Reaches (join prefix e.0) e.1) output (call (join prefix e.0) e.1 output)

  list_entries-Appends :
      (call : Bytes → Node → List (Bytes × Node) → Option (List (Bytes × Node))) (prefix : Bytes)
      (es output : List (Bytes × Node))
      → All (CallsRight call prefix) es
      → Appends (Below prefix es) output (list_entries yaml call prefix es output)
  unfolding list_entries
  list_entries-Appends call prefix [] output h = record {
    more = [];
    result = rw append-nil refl;
    sound = λ name target i. absurd (In-nil refl i);
    complete = λ name target b. absurd (In-nil refl b.2);
  }
  list_entries-Appends call prefix ((key, node) ∷ rest) output h =
      let one = h.0 output in
      let two = list_entries-Appends call prefix rest (output ++ one.more) h.1 in
      record {
        more = one.more ++ two.more;
        result =
            rw (one.result, list_entries)
              (two.result ∙ ap some (append_assoc output one.more two.more));
        sound = λ name target i. elim (In-append one.more two.more i) [
          | inl left ↦ (key, node, here refl, one.sound name target left)
          | inr right ↦
              let (k, child, place, way) = two.sound name target right in
              (k, child, there place, way)
        ];
        complete = λ name target b. elim (In-cons b.2) [
          | inl e ↦ In-append_left one.more two.more (
              one.complete name target (
                subst (λ (q : Bytes × Node). Reaches (join prefix q.0) q.1 name target) (sym e)
                  b.3))
          | inr place ↦
              In-append_right one.more two.more (two.complete name target (b.0, b.1, place, b.3))
        ];
      }

  Reaches-valid :
      {prefix name : Bytes} {node target : Node}
      → Reaches prefix node name target
      → is_valid_name prefix ≡ true
  Reaches-valid (stop ok) = ok
  Reaches-valid (step key child ok m i way) = ok

  -- Only valid names are reached.
  pub Reaches-name :
      {prefix name : Bytes} {node target : Node}
      → Reaches prefix node name target
      → is_valid_name name ≡ true
  Reaches-name (stop ok) = ok
  Reaches-name (step key child ok m i way) = Reaches-name way

  -- A way to a node ends at once, or goes through an entry.
  Reaches-cases :
      {prefix name : Bytes} {node target : Node}
      → Reaches prefix node name target
      → (◌≡◌ {A = Bytes × Node} (prefix, node) (name, target))
        ⊎ ((is_map node ≡ true) × Below prefix (entries node) name target)
  Reaches-cases (stop ok) = inl refl
  Reaches-cases (step key child ok m i way) = inr (m, (key, child, i, way))

  refused :
      (prefix : Bytes) (node : Node) (output : List (Bytes × Node))
      → is_valid_name prefix ≡ false
      → Appends (Reaches prefix node) output (some output)
  refused prefix node output bad = record {
    more = [];
    result = rw append-nil refl;
    sound = λ name target i. absurd (In-nil refl i);
    complete = λ name target way. absurd (cc (bad, Reaches-valid way));
  }

  leaf :
      (prefix : Bytes) (node : Node) (output : List (Bytes × Node))
      → is_valid_name prefix ≡ true
      → is_map node ≡ false
      → Appends (Reaches prefix node) output (some (output ++ (prefix, node) ∷ []))
  leaf prefix node output ok flat = record {
    more = (prefix, node) ∷ [];
    result = refl;
    sound = λ name target i. elim (In-cons i) [
      | inl e ↦ subst (λ (q : Bytes × Node). Reaches prefix node q.0 q.1) e (stop ok)
      | inr gone ↦ absurd (In-nil refl gone)
    ];
    complete = λ name target way. elim (Reaches-cases way) [
      | inl e ↦ here e
      | inr deeper ↦ absurd (cc (flat, deeper.0))
    ];
  }

  branch :
      (prefix : Bytes) (node : Node) (output : List (Bytes × Node))
      {r : Option (List (Bytes × Node))}
      → is_valid_name prefix ≡ true
      → is_map node ≡ true
      → Appends (Below prefix (entries node)) (output ++ (prefix, node) ∷ []) r
      → Appends (Reaches prefix node) output r
  branch prefix node output ok m a = record {
    more = (prefix, node) ∷ a.more;
    result = a.result ∙ ap some (append_assoc output ((prefix, node) ∷ []) a.more);
    sound = λ name target i. elim (In-cons i) [
      | inl e ↦ subst (λ (q : Bytes × Node). Reaches prefix node q.0 q.1) e (stop ok)
      | inr deeper ↦
          let (key, child, place, way) = a.sound name target deeper in step key child ok m place way
    ];
    complete = λ name target way. elim (Reaches-cases way) [
      | inl e ↦ here e
      | inr deeper ↦ there (a.complete name target deeper.1)
    ];
  }

  -- With fuel above the depth of the node `ListAllMember` comes back, and has appended to its
  -- output exactly the nodes that are reached from the node through the keys of maps by valid
  -- names, each under its dotted name.
  pub list_all_member-Appends :
      (fuel : ℕ) (prefix : Bytes) (node : Node) (output : List (Bytes × Node))
      → depth node < fuel
      → Appends (Reaches prefix node) output (list_all_member yaml fuel prefix node output)
  unfolding list_all_member
  list_all_member-Appends zero prefix node output h = absurd (omega arith)
  list_all_member-Appends (suc fuel) prefix node output h =
      elim (Bool-cases (is_valid_name prefix)) [
        | inr bad ↦ rw bad (refused prefix node output bad)
        | inl ok ↦ elim (Bool-cases (is_map node)) [
          | inr flat ↦ rw (ok, flat) (leaf prefix node output ok flat)
          | inl m ↦
              rw (ok, m)
                (branch prefix node output ok m (
                  list_entries-Appends (λ p n o. list_all_member yaml fuel p n o) prefix
                    (entries node) _
                    (All-map
                      (λ e below o.
                        list_all_member-Appends fuel (join prefix e.0) e.1 o (omega arith))
                      (entries node) (entries_below node))))
        ]
      ]
