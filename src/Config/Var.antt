-- ===== src/Config/Var.antt =====
-- src/config/config.h, `ConfigVar`: a typed variable with listeners.
pub mod Listeners
pub mod Changes
use simple_http_server.Base.{
  ℕ, ◌+◌, ◌%◌, ◌^◌, Bool, true, false, List, [], ◌∷◌, map, Option, none, some, if◌then◌else◌, ◌==◌,
  ltb,
}
use simple_http_server.Base.Bytes.{Bytes, tolower}

-- What a callback leaves behind: it returns, or it throws a `std::exception`.
pub data Outcome (W : Type 0) : Type 0 where
  done : W → Outcome W
  threw : W → Outcome W

-- What the template's parameters give for a type `T`: its `operator==`, and the two conversions,
-- which may throw; `report` is the error message to the root logger.
pub record Setting (T W : Type 0) : Type 0 where
  pub same_value : T → T → Bool
  pub from_text : Bytes → Option T
  pub to_text : T → Option Bytes
  pub report : Bytes → Bytes → W → W

-- `on_change_cb`: a callback gets the old and the new value and acts on the world.
abbrev pub Callback : Type 0 → Type 0 → Type 0
Callback T W = T → T → W → Outcome W

pub record ConfigVar (T W : Type 0) : Type 0 where
  pub name : Bytes
  pub description : Bytes
  pub value : T
  pub listeners : List (ℕ × Callback T W)

module _ {T W : Type 0} where
  -- The constructors of `ConfigVarBase` and `ConfigVar`.
  unfoldable pub new_var : T → Bytes → Bytes → ConfigVar T W
  new_var default name description = record {
    name = map tolower name;
    description = description;
    value = default;
    listeners = [];
  }

  abbrev pub get_value : ConfigVar T W → T
  get_value v = v.value

  -- The loop over `m_cbs`, in the order of the keys.
  unfoldable pub notify : List (ℕ × Callback T W) → T → T → W → Outcome W
  notify [] old new w = done w
  notify ((key, cb) ∷ rest) old new w = elim (cb old new w) [
    | threw w' ↦ threw w'
    | done w' ↦ notify rest old new w'
  ]

  -- Behind the loop: the value is set only if every callback has returned.
  unfoldable pub assign_value : ConfigVar T W → T → Outcome W → ConfigVar T W × Outcome W
  assign_value v new (threw w) = (v, threw w)
  assign_value v new (done w) = (record v { value = new }, done w)

  unfoldable pub set_value : Setting T W → ConfigVar T W → T → W → ConfigVar T W × Outcome W
  unfolding assign_value
  set_value s v new w =
      if s.same_value v.value new
      then (v, done w)
      else assign_value v new (notify v.listeners v.value new w)

  -- The `catch` of `fromString`.
  unfoldable pub caught : Setting T W → Bytes → ConfigVar T W × Outcome W → ConfigVar T W × W × Bool
  caught s text (v, done w) = (v, w, true)
  caught s text (v, threw w) = (v, s.report v.name text w, false)

  unfoldable pub from_string : Setting T W → ConfigVar T W → Bytes → W → ConfigVar T W × W × Bool
  unfolding caught
  from_string s v text w = elim (s.from_text text) [
    | none ↦ (v, s.report v.name text w, false)
    | some new ↦ caught s text (set_value s v new w)
  ]

  unfoldable pub to_string : Setting T W → ConfigVar T W → W → Bytes × W
  to_string s v w = elim (s.to_text v.value) [
    | none ↦ ([], s.report v.name [] w)
    | some text ↦ (text, w)
  ]

  -- `m_cbs.insert({key, cb})`: nothing happens if the key is there.
  unfoldable pub insert_listener :
      ℕ → Callback T W → List (ℕ × Callback T W) → List (ℕ × Callback T W)
  insert_listener key cb [] = (key, cb) ∷ []
  insert_listener key cb ((j, c) ∷ rest) =
      if j == key
      then (j, c) ∷ rest
      else if ltb key j
      then (key, cb) ∷ (j, c) ∷ rest
      else (j, c) ∷ insert_listener key cb rest

  -- `addListener`, with the static counter `s_func_id` before and after, a `uint64_t`.
  unfoldable pub add_listener : ConfigVar T W → Callback T W → ℕ → ConfigVar T W × ℕ
  unfolding insert_listener
  add_listener v cb last_id =
      let key = (last_id + 1) % 2 ^ 64 in
      (record v { listeners = insert_listener key cb v.listeners }, key)

  unfoldable pub erase_listener : ℕ → List (ℕ × Callback T W) → List (ℕ × Callback T W)
  erase_listener key [] = []
  erase_listener key ((j, c) ∷ rest) = if j == key then rest else (j, c) ∷ erase_listener key rest

  unfoldable pub del_listener : ConfigVar T W → ℕ → ConfigVar T W
  unfolding erase_listener
  del_listener v key = record v { listeners = erase_listener key v.listeners }

  unfoldable pub find_listener : ℕ → List (ℕ × Callback T W) → Option (Callback T W)
  find_listener key [] = none
  find_listener key ((j, c) ∷ rest) = if j == key then some c else find_listener key rest

  abbrev pub get_listener : ConfigVar T W → ℕ → Option (Callback T W)
  get_listener v key = find_listener key v.listeners

  abbrev pub clear_listener : ConfigVar T W → ConfigVar T W
  clear_listener v = record v { listeners = [] }
