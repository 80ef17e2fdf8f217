-- ===== src/Config/Registry/Laws.antt =====
-- Registering a variable and looking it up.
use simple_http_server.Base.{
  ℕ, ◌<◌, ◌≡◌, refl, ◌∙◌, ◌≢◌, Bool, true, [], ◌∷◌, map, some, arith, Bool-cases, Option-cases, inl,
  inr, ◌==◌, ==_iff, All, ◌&&◌,
}
use simple_http_server.Base.Bytes.{Bytes, same_iff, tolower}
use simple_http_server.Base.Dict.{find, find-assign, find-assign_self}
use simple_http_server.Config.Registry.{
  VarClass, Registry, pointer, null, is_valid_name, is_one_of, name_bytes, cast, insert_var,
  found_or_new, lookup_or_new, lookup,
}

and_left : (a b : Bool) → (a && b) ≡ true → a ≡ true
and_left a b h = ground arith

and_right : (a b : Bool) → (a && b) ≡ true → b ≡ true
and_right a b h = ground arith

-- A byte of a set that `tolower` leaves alone is left alone.
one_of-tolower :
    (bs : Bytes) (c : ℕ) → All (λ b. tolower b ≡ b) bs → is_one_of bs c ≡ true → tolower c ≡ c
unfolding is_one_of
one_of-tolower [] c low h = cc
one_of-tolower (b ∷ bs) c low h = elim (Bool-cases (b == c)) [
  | inl hit ↦ rw (← (==_iff b c).0 hit) low.0
  | inr miss ↦ one_of-tolower bs c low.1 (rw miss at h)
]

tolower_one : (c : ℕ) → is_one_of name_bytes c ≡ true → tolower c ≡ c
tolower_one c h = one_of-tolower name_bytes c (unfold tolower in omega arith) h

-- A valid name has no upper-case letter: `tolower` leaves it alone.
pub map-tolower : (name : Bytes) → is_valid_name name ≡ true → map tolower name ≡ name
unfolding is_valid_name
map-tolower [] h = refl
map-tolower (c ∷ name) h = cc (
  tolower_one c (and_left (is_one_of name_bytes c) (is_valid_name name) h),
  map-tolower name (and_right (is_one_of name_bytes c) (is_valid_name name) h),
)

module _ {V W : Type 0} (class : VarClass V W) where
  -- Every registered pointer leads to a variable, and names are valid.
  pub record IsValid (r : Registry V) : Type 0 where
    pub allocated : (name : Bytes) (p : ℕ) → find name r.datas ≡ some p → p < r.next
    pub valid_names :
        (name : Bytes) (p : ℕ) → find name r.datas ≡ some p → is_valid_name name ≡ true
    pub own_names :
        (name : Bytes) (p : ℕ) → find name r.datas ≡ some p → class.var_name (r.var p) ≡ name

  insert_var-IsValid :
      (r : Registry V) (name : Bytes) (fresh : V)
      → IsValid r
      → is_valid_name name ≡ true
      → class.var_name fresh ≡ name
      → IsValid (insert_var r name fresh)
  insert_var-IsValid r name fresh v ok named = record {
    allocated =
        λ other p e. ground (arith, find-assign name other r.next r.datas, v.allocated other p);
    valid_names = λ other p e.
        ground (
          arith,
          find-assign name other r.next r.datas,
          same_iff name other,
          v.valid_names other p,
        );
    own_names = λ other p e. ground (
      arith,
      find-assign name other r.next r.datas,
      same_iff name other,
      v.allocated other p,
      v.own_names other p,
    );
  }

  -- `Lookup` with a default keeps the registry valid, whichever way it ends: pointers are
  -- allocated, names are valid, and each variable carries the name that it is registered under.
  pub lookup_or_new-IsValid :
      (r : Registry V) (type : ℕ) (fresh : V) (name : Bytes)
      → IsValid r
      → class.var_name fresh ≡ map tolower name
      → IsValid (lookup_or_new class r type fresh name).0
  unfolding lookup_or_new
  lookup_or_new-IsValid r type fresh name v named = elim (Option-cases (find name r.datas)) [
    | inr (p, e) ↦ rw (e, lookup_or_new) (unfold found_or_new in v)
    | inl e ↦
        rw (e, lookup_or_new)
          (elim (Bool-cases (is_valid_name name)) [
            | inl good ↦
                unfold found_or_new in
                rw good (insert_var-IsValid r name fresh v good (named ∙ map-tolower name good))
            | inr bad ↦ unfold found_or_new in rw bad v
          ])
  ]

  registered :
      (r : Registry V) (type p : ℕ) (fresh : V) (name : Bytes)
      → class.type_of fresh ≡ type
      → (lookup_or_new class r type fresh name).1 ≡ pointer p
      → let r' = (lookup_or_new class r type fresh name).0 in
        (find name r'.datas ≡ some p) × (cast class r' type p ≡ pointer p)
  unfolding lookup_or_new found_or_new cast
  registered r type p fresh name typed got = ground (arith, find-assign_self name r.next r.datas)

  -- A variable that `Lookup` with a default has returned is found again, by both look-ups, and
  -- the second default is not used.
  pub lookup-lookup_or_new :
      (r : Registry V) (type p : ℕ) (fresh other : V) (name : Bytes)
      → class.type_of fresh ≡ type
      → (lookup_or_new class r type fresh name).1 ≡ pointer p
      → let r' = (lookup_or_new class r type fresh name).0 in
        (lookup class r' type name ≡ pointer p)
        × (lookup_or_new class r' type other name ≡ (r', pointer p))
  lookup-lookup_or_new r type p fresh other name typed got =
      let (found, ok) = registered r type p fresh name typed got in
      (
        unfold lookup in rw (found, lookup) ok,
        unfold found_or_new lookup_or_new in ground (arith, found, ok),
      )

  -- Under a name that a variable of another type has, both look-ups give the null pointer, and
  -- nothing is registered.
  pub lookup_wrong_type :
      (r : Registry V) (type q : ℕ) (fresh : V) (name : Bytes)
      → find name r.datas ≡ some q
      → class.type_of (r.var q) ≢ type
      → (lookup class r type name ≡ null) × (lookup_or_new class r type fresh name ≡ (r, null))
  unfolding lookup lookup_or_new found_or_new cast
  lookup_wrong_type r type q fresh name e other = ground arith
