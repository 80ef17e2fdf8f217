-- ===== src/Config/Registry/Stable.antt =====
-- A registered variable is never replaced.
use simple_http_server.Base.{
  ℕ, ◌≡◌, refl, ◌≢◌, List, [], ◌∷◌, none, some, map, All, arith, Bool-cases, Option-cases, inl, inr,
}
use simple_http_server.Base.Bytes.{Bytes, same_iff, tolower}
use simple_http_server.Base.Dict.{find, find-assign}
use simple_http_server.Config.Registry.{
  VarClass, Registry, pointer, null, is_valid_name, cast, insert_var, found_or_new, lookup_or_new,
  lookup,
}
use simple_http_server.Config.Registry.Laws.{IsValid, lookup_or_new-IsValid}

module _ {V W : Type 0} (class : VarClass V W) where
  -- `Lookup` with defaults: the type asked for, the variable that would be made, and the name.
  unfoldable pub look_up_each : Registry V → List (ℕ × V × Bytes) → Registry V
  look_up_each r [] = r
  look_up_each r ((type, fresh, name) ∷ rest) =
      look_up_each (lookup_or_new class r type fresh name).0 rest

  -- A variable under a name, and what it is.
  abbrev IsThere : Registry V → Bytes → ℕ → V → Type 0
  IsThere r name p v = (find name r.datas ≡ some p) × (r.var p ≡ v)

  insert_var-IsThere :
      (r : Registry V) (other name : Bytes) (p : ℕ) (fresh v : V)
      → IsValid class r
      → find other r.datas ≡ none
      → IsThere r name p v
      → IsThere (insert_var r other fresh) name p v
  insert_var-IsThere r other name p fresh v ok new (found, is) = (
    ground (arith, find-assign other name r.next r.datas, same_iff other name, new, found),
    ground (arith, ok.allocated name p found, is),
  )

  lookup_or_new-IsThere :
      (r : Registry V) (type : ℕ) (other name : Bytes) (p : ℕ) (fresh v : V)
      → IsValid class r
      → IsThere r name p v
      → IsThere (lookup_or_new class r type fresh other).0 name p v
  unfolding lookup_or_new
  lookup_or_new-IsThere r type other name p fresh v ok there =
      elim (Option-cases (find other r.datas)) [
        | inr (q, e) ↦ rw (e, lookup_or_new) (unfold found_or_new in there)
        | inl e ↦
            rw (e, lookup_or_new)
              (elim (Bool-cases (is_valid_name other)) [
                | inl good ↦
                    unfold found_or_new in
                    rw (good) (insert_var-IsThere r other name p fresh v ok e there)
                | inr bad ↦ unfold found_or_new in rw (bad) there
              ])
      ]

  look_up_each-IsThere :
      (requests : List (ℕ × V × Bytes)) (r : Registry V) (name : Bytes) (p : ℕ) (v : V)
      → IsValid class r
      → All (λ q. class.var_name q.1 ≡ map tolower q.2) requests
      → IsThere r name p v
      → IsThere (look_up_each r requests) name p v
  unfolding look_up_each
  look_up_each-IsThere [] r name p v ok named there = there
  look_up_each-IsThere ((type, fresh, other) ∷ rest) r name p v ok (n, ns) there =
      look_up_each-IsThere rest (lookup_or_new class r type fresh other).0 name p v
        (lookup_or_new-IsValid class r type fresh other ok n) ns
        (lookup_or_new-IsThere r type other name p fresh v ok there)

  -- A variable that `Lookup` finds under a type in a valid registry is of that type, and after any
  -- further look-ups with defaults, of whatever names and types, it is found under its name and
  -- type again, at the same address and unchanged, and under no other type, if each default
  -- carries its name in lower case.
  pub lookup-look_up_each :
      (r : Registry V) (requests : List (ℕ × V × Bytes)) (type p : ℕ) (name : Bytes)
      → IsValid class r
      → All (λ q. class.var_name q.1 ≡ map tolower q.2) requests
      → lookup class r type name ≡ pointer p
      → let r' = look_up_each r requests in
        (class.type_of (r'.var p) ≡ type)
        × (r'.var p ≡ r.var p)
        × (lookup class r' type name ≡ pointer p)
        × ((wanted : ℕ) → wanted ≢ type → lookup class r' wanted name ≡ null)
  unfolding lookup cast
  lookup-look_up_each r requests type p name ok named got =
      elim (Option-cases (find name r.datas)) [
        | inl e ↦ absurd (ground (arith, e, got))
        | inr (q, e) ↦
            let (found, is) = look_up_each-IsThere requests r name q (r.var q) ok named (e, refl) in
            let typed : class.type_of (r.var q) ≡ type = ground (arith, e, got) in
            let here : q ≡ p = ground (arith, e, got) in
            rw (← here) (
              rw (is) typed,
              is,
              ground (arith, found, is, typed),
              λ wanted ne. ground (arith, found, is, typed, ne),
            )
      ]
