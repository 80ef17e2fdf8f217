-- ===== src/Config/Registry.antt =====
-- src/config/config.h, `Config`: the registry of variables. A variable is an object `V` of which
-- the registry uses the type, the name, `fromString`, and nothing else; `Config` holds pointers
-- to variables, which are numbers here.
pub mod Laws
pub mod Stable
use simple_http_server.Base.{
  ℕ, ◌+◌, Bool, true, false, not, ◌&&◌, ◌||◌, List, [], ◌∷◌, Option, none, some, if◌then◌else◌,
  ◌==◌,
}
use simple_http_server.Base.Bytes.{Bytes, codes}
use simple_http_server.Base.Dict.{Dict, find, assign}

-- `GetDatas()`, and the variables that the pointers lead to.
pub record Registry (V : Type 0) : Type 0 where
  pub datas : Dict ℕ
  pub var : ℕ → V
  pub next : ℕ

-- The virtual functions of `ConfigVarBase`; `W` is the world that callbacks and messages act on.
-- `fromString` of the variable at a pointer is called without the registry's lock, and may do
-- whatever its listeners do: register variables and set this one and others.
pub record VarClass (V W : Type 0) : Type 0 where
  pub type_of : V → ℕ
  pub var_name : V → Bytes
  pub read_text : ℕ → Bytes → Registry V → W → Registry V × W × Bool

abbrev pub name_bytes : Bytes
name_bytes = codes "abcdefghijklmnopqrstuvwxyz._1234567890"

unfoldable pub is_one_of : Bytes → ℕ → Bool
is_one_of [] c = false
is_one_of (b ∷ bs) c = b == c || is_one_of bs c

-- `name.find_first_not_of(…) == name.npos`
unfoldable pub is_valid_name : Bytes → Bool
unfolding is_one_of
is_valid_name [] = true
is_valid_name (c ∷ name) = is_one_of name_bytes c && is_valid_name name

-- What `Lookup` comes to: a pointer, the null pointer, or `std::invalid_argument`.
pub data Lookup : Type 0 where
  pointer : ℕ → Lookup
  null : Lookup
  invalid_argument : Lookup

module _ {V : Type 0} where
  abbrev pub insert_var : Registry V → Bytes → V → Registry V
  insert_var r name v = record {
    datas = assign name r.next r.datas;
    var = λ q. if r.next == q then v else r.var q;
    next = r.next + 1;
  }

  abbrev pub lookup_base : Registry V → Bytes → Option ℕ
  lookup_base r name = find name r.datas

module _ {V W : Type 0} where
  -- `std::dynamic_pointer_cast` to the type asked for.
  unfoldable pub cast : VarClass V W → Registry V → ℕ → ℕ → Lookup
  cast class r type p = if class.type_of (r.var p) == type then pointer p else null

  -- Behind the look-up of the name.
  unfoldable pub found_or_new :
      VarClass V W → Registry V → ℕ → V → Bytes → Option ℕ → Registry V × Lookup
  found_or_new class r type fresh name (some p) = (r, cast class r type p)
  found_or_new class r type fresh name none =
      if not (is_valid_name name)
      then (r, invalid_argument)
      else (insert_var r name fresh, pointer r.next)

  -- `Lookup(default_value, name, description)`, given the variable that it would make.
  unfoldable pub lookup_or_new : VarClass V W → Registry V → ℕ → V → Bytes → Registry V × Lookup
  unfolding found_or_new
  lookup_or_new class r type fresh name = found_or_new class r type fresh name (find name r.datas)

  -- `Lookup(name)`
  unfoldable pub lookup : VarClass V W → Registry V → ℕ → Bytes → Lookup
  unfolding cast
  lookup class r type name = elim (find name r.datas) [ none ↦ null | some p ↦ cast class r type p ]

module _ {W : Type 0} where
  -- `Visit`: the callback sees every variable, in the order of the names.
  unfoldable pub visit_all : (ℕ → W → W) → Dict ℕ → W → W
  visit_all cb [] w = w
  visit_all cb ((name, p) ∷ rest) w = visit_all cb rest (cb p w)

  abbrev pub visit : {V : Type 0} → Registry V → (ℕ → W → W) → W → W
  visit r cb w = visit_all cb r.datas w
