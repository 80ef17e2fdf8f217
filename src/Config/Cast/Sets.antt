-- ===== src/Config/Cast/Sets.antt =====
-- Sets and unordered sets are read back from the text that is written for them.
use simple_http_server.Base.{
  ◌≡◌, ◌↔◌, refl, sym, ap, ◌∙◌, Bool, true, false, ◌||◌, List, [], ◌∷◌, ◌++◌, some, All, All-append,
  append_assoc, append-nil, Bool-cases, inl, inr, arith,
}
use simple_http_server.Base.Bytes.{Bytes}
use simple_http_server.Config.Cast.{
  YamlList, Element, insert, insert_unordered, contains, text_of_set, text_of_unordered_set,
  set_of_text, unordered_set_of_text,
}
use simple_http_server.Config.Cast.RoundTrip.{ReadsBack, ReadsList, add_each, nodes_of-AreNodes}

module _ {T : Type 0} (lt : T → T → Bool) where
  -- In increasing order, each element before all that follow.
  abbrev pub IsSorted : List T → Type 0
  IsSorted [] = Unit
  IsSorted (t ∷ ts) = All (λ u. lt t u ≡ true) ts × IsSorted ts

  -- Every element of the first list is before every one of the second.
  abbrev IsBelow : List T → List T → Type 0
  IsBelow res ts = All (λ t. All (λ u. lt u t ≡ true) res) ts

  module _ (asymmetric : (a b : T) → lt a b ≡ true → lt b a ≡ false) where
    insert-last :
        (us : List T) (t : T) → All (λ u. lt u t ≡ true) us → insert lt us t ≡ us ++ t ∷ []
    unfolding insert
    insert-last [] t h = refl
    insert-last (u ∷ us) t (h, hs) =
        rw (asymmetric u t h, h) (ap (λ r. u ∷ r) (insert-last us t hs))

    IsBelow-push :
        (res : List T) (t : T) (ts : List T)
        → IsBelow res ts
        → All (λ u. lt t u ≡ true) ts
        → IsBelow (res ++ t ∷ []) ts
    IsBelow-push res t [] b h = b
    IsBelow-push res t (u ∷ ts) (b, bs) (h, hs) =
        (All-append (λ v. lt v u ≡ true) res (t ∷ []) b (h, tt), IsBelow-push res t ts bs hs)

    add_each-insert :
        (res ts : List T) → IsBelow res ts → IsSorted ts → add_each (insert lt) res ts ≡ res ++ ts
    unfolding add_each
    add_each-insert res [] b o = sym (append-nil res)
    add_each-insert res (t ∷ ts) (b, bs) (h, o) = rw (insert-last res t b) (
        add_each-insert (res ++ t ∷ []) ts (IsBelow-push res t ts bs h) o
        ∙ append_assoc res (t ∷ []) ts)

IsBelow-nil : {T : Type 0} (lt : T → T → Bool) (ts : List T) → IsBelow lt [] ts
IsBelow-nil lt [] = tt
IsBelow-nil lt (t ∷ ts) = (tt, IsBelow-nil lt ts)

module _ (yaml : YamlList) {T : Type 0} (element : Element T) (ts : List T) where
  -- A set, whose elements are in increasing order, can be written as YAML text and is read back
  -- from that text, if each element is read back from its node, and the YAML library gives back the
  -- nodes of this set once it has written them; the order of the elements is asymmetric.
  pub set_of_text-text_of_set :
      (lt : T → T → Bool)
      → ((a b : T) → lt a b ≡ true → lt b a ≡ false)
      → IsSorted lt ts
      → ((t : T) → ReadsBack yaml element t)
      → ReadsList yaml element ts
      → (s : Bytes) × (text_of_set yaml element ts ≡ some s)
        × (set_of_text yaml element lt s ≡ some ts)
  unfolding set_of_text text_of_set
  set_of_text-text_of_set lt asymmetric o back whole =
      let r = nodes_of-AreNodes yaml element (insert lt) ts back in
      let (n, loaded, same_items) = whole r.nodes r.made in
      (
        yaml.emit (yaml.of_list r.nodes),
        rw (r.made) refl,
        rw (loaded, same_items)
            (r.read [] ∙ ap some (add_each-insert lt asymmetric [] ts (IsBelow-nil lt ts) o)),
      )

module _ {T : Type 0} (eq : T → T → Bool) (eq_iff : (a b : T) → (eq a b ≡ true) ↔ (a ≡ b))
    (place : List T → T → List T)
    (places : (res : List T) (t x : T)
      → contains eq (place res t) x ≡ (eq t x || contains eq res x)) where
  contains-insert_unordered :
      (res : List T) (t x : T)
      → contains eq (insert_unordered eq place res t) x ≡ (eq t x || contains eq res x)
  unfolding insert_unordered
  contains-insert_unordered res t x = elim (Bool-cases (contains eq res t)) [
    | inl old ↦ rw (old) (already (eq t x) refl old)
    | inr new ↦ rw (new) (places res t x)
  ]
    where
      already :
          (b : Bool)
          → eq t x ≡ b
          → contains eq res t ≡ true
          → contains eq res x ≡ (eq t x || contains eq res x)
      already true e h = rw (e) (rw (← (eq_iff t x).0 e) h)
      already false e h = rw (e) refl

  contains-add_each :
      (res ts : List T) (x : T)
      → contains eq (add_each (insert_unordered eq place) res ts) x
        ≡ (contains eq ts x || contains eq res x)
  unfolding add_each
  contains-add_each res [] x = refl
  contains-add_each res (t ∷ ts) x = ground (
    arith,
    contains-add_each (insert_unordered eq place res t) ts x,
    contains-insert_unordered res t x,
  )

or_false : (b : Bool) → (b || false) ≡ b
or_false true = refl
or_false false = refl

-- An unordered set can be written as YAML text, and what is read back from that text has the same
-- elements, wherever the insertion of a new element puts it, if each element is read back from its
-- node, and the YAML library gives back the nodes of this set once it has written them.
pub contains-unordered_set_of_text :
    (yaml : YamlList) {T : Type 0} (element : Element T) (ts : List T) (eq : T → T → Bool)
    (place : List T → T → List T)
    → ((a b : T) → (eq a b ≡ true) ↔ (a ≡ b))
    → ((res : List T) (t x : T) → contains eq (place res t) x ≡ (eq t x || contains eq res x))
    → ((t : T) → ReadsBack yaml element t)
    → ReadsList yaml element ts
    → (s : Bytes) × (us : List T) × (text_of_unordered_set yaml element ts ≡ some s)
      × (unordered_set_of_text yaml element eq place s ≡ some us)
      × ((x : T) → contains eq us x ≡ contains eq ts x)
unfolding unordered_set_of_text text_of_unordered_set
contains-unordered_set_of_text yaml element ts eq place eq_iff places back whole =
    let r = nodes_of-AreNodes yaml element (insert_unordered eq place) ts back in
    let (n, loaded, same_items) = whole r.nodes r.made in
    (
      yaml.emit (yaml.of_list r.nodes),
      add_each (insert_unordered eq place) [] ts,
      rw (r.made) refl,
      rw (loaded, same_items) (r.read []),
      λ x. contains-add_each eq eq_iff place places [] ts x ∙ or_false (contains eq ts x),
    )
