-- ===== src/Config/Cast/Order.antt =====
-- What is read as a set is in increasing order, whatever the text is.
use simple_http_server.Base.{
  ◌≡◌, Bool, true, List, [], ◌∷◌, some, All, Bool-cases, Option-cases, inl, inr, arith,
}
use simple_http_server.Base.Bytes.{Bytes}
use simple_http_server.Config.Cast.{YamlList, Element, insert, read_each, set_of_text}
use simple_http_server.Config.Cast.Sets.{IsSorted}

module _ {T : Type 0} (lt : T → T → Bool) where
  All-insert :
      (us : List T) (t u : T)
      → lt u t ≡ true
      → All (λ x. lt u x ≡ true) us
      → All (λ x. lt u x ≡ true) (insert lt us t)
  unfolding insert
  All-insert [] t u h hs = (h, tt)
  All-insert (x ∷ us) t u h (hx, hs) = elim (Bool-cases (lt t x)) [
    | inl at ↦ rw (at) (h, (hx, hs))
    | inr not_below ↦ elim (Bool-cases (lt x t)) [
      | inl above ↦ rw (not_below, above) (hx, All-insert us t u h hs)
      | inr same ↦ rw (not_below, same) (hx, hs)
    ]
  ]

  module _ (transitive : (a b c : T) → lt a b ≡ true → lt b c ≡ true → lt a c ≡ true) where
    All-below :
        (us : List T) (t u : T)
        → lt t u ≡ true
        → All (λ x. lt u x ≡ true) us
        → All (λ x. lt t x ≡ true) us
    All-below [] t u h hs = tt
    All-below (x ∷ us) t u h (hx, hs) = (transitive t u x h hx, All-below us t u h hs)

    insert-IsSorted : (us : List T) (t : T) → IsSorted lt us → IsSorted lt (insert lt us t)
    unfolding insert
    insert-IsSorted [] t o = (tt, tt)
    insert-IsSorted (u ∷ us) t (h, o) = elim (Bool-cases (lt t u)) [
      | inl below ↦ rw (below) (((below, All-below us t u below h)), (h, o))
      | inr not_below ↦ elim (Bool-cases (lt u t)) [
        | inl above ↦ rw (not_below, above) (All-insert us t u above h, insert-IsSorted us t o)
        | inr same ↦ rw (not_below, same) (h, o)
      ]
    ]

    module _ (yaml : YamlList) (element : Element T) where
      read_each-IsSorted :
          (ns : List yaml.Node) (res us : List T)
          → IsSorted lt res
          → read_each yaml element (insert lt) ns res ≡ some us
          → IsSorted lt us
      unfolding read_each
      read_each-IsSorted [] res us o e = ground (arith, o, e)
      read_each-IsSorted (n ∷ ns) res us o e =
          elim (Option-cases (element.from_text (yaml.emit n))) [
            | inl threw ↦ absurd (ground (arith, threw, e))
            | inr (t, read) ↦
                read_each-IsSorted ns (insert lt res t) us (insert-IsSorted res t o)
                  (ground (arith, read, e))
          ]

      -- A set that is read from text holds its elements in increasing order, whatever the text
      -- is, if the order of the elements is transitive.
      pub set_of_text-IsSorted :
          (text : Bytes) (us : List T) → set_of_text yaml element lt text ≡ some us → IsSorted lt us
      unfolding set_of_text
      set_of_text-IsSorted text us e = elim (Option-cases (yaml.load text)) [
        | inl threw ↦ absurd (ground (arith, threw, e))
        | inr (node, loaded) ↦
            read_each-IsSorted (yaml.items node) [] us tt (ground (arith, loaded, e))
      ]
