-- ===== src/Config/Var/Listeners.antt =====
-- Listeners are kept in key order under distinct keys, and are found under the key returned.
use simple_http_server.Base.{
  ℕ, ◌+◌, ◌%◌, ◌^◌, ◌<◌, ◌≤◌, ◌≡◌, refl, List, [], ◌∷◌, none, some, arith, if◌then◌else◌, ◌==◌,
}
use simple_http_server.Config.Var.{
  Callback, ConfigVar, insert_listener, add_listener, erase_listener, del_listener, find_listener,
  get_listener,
}

module _ {T W : Type 0} where
  -- The keys rise along the list, from `low` on, and stay at or below `high`.
  abbrev pub Rising : ℕ → ℕ → List (ℕ × Callback T W) → Type 0
  Rising low high [] = Unit
  Rising low high ((key, cb) ∷ rest) = (low < key) × (key ≤ high) × Rising key high rest

  -- Every key was handed out before, and the counter has not run through.
  pub record IsValid (v : ConfigVar T W) (last_id : ℕ) : Type 0 where
    pub rising : Rising 0 last_id v.listeners
    pub counting : last_id + 1 < 2 ^ 64

  insert-Rising :
      (cbs : List (ℕ × Callback T W)) (low high key : ℕ) (cb : Callback T W)
      → Rising low high cbs
      → low < key
      → high < key
      → Rising low key (insert_listener key cb cbs)
  unfolding insert_listener
  insert-Rising [] low high key cb r h k = (h, omega arith, tt)
  insert-Rising ((j, c) ∷ rest) low high key cb r h k =
      ground (arith, insert-Rising rest j high key cb r.2)

  find-insert :
      (cbs : List (ℕ × Callback T W)) (low high key other : ℕ) (cb : Callback T W)
      → Rising low high cbs
      → high < key
      → find_listener other (insert_listener key cb cbs)
        ≡ (if key == other then some cb else find_listener other cbs)
  unfolding insert_listener find_listener
  find-insert [] low high key other cb r h = refl
  find-insert ((j, c) ∷ rest) low high key other cb r h =
      ground (arith, find-insert rest j high key other cb r.2)

  find_above :
      (cbs : List (ℕ × Callback T W)) (low high key : ℕ)
      → Rising low high cbs
      → key ≤ low
      → find_listener key cbs ≡ none
  unfolding find_listener
  find_above [] low high key r h = refl
  find_above ((j, c) ∷ rest) low high key r h = ground (arith, find_above rest j high key r.2)

  erase-Rising :
      (cbs : List (ℕ × Callback T W)) (low high key : ℕ)
      → Rising low high cbs
      → Rising low high (erase_listener key cbs)
  unfolding erase_listener
  erase-Rising [] low high key r = tt
  erase-Rising ((j, c) ∷ []) low high key r = ground arith
  erase-Rising ((j, c) ∷ (i, d) ∷ rest) low high key r =
      ground (arith, erase-Rising ((i, d) ∷ rest) j high key r.2)

  find-erase :
      (cbs : List (ℕ × Callback T W)) (low high key other : ℕ)
      → Rising low high cbs
      → find_listener other (erase_listener key cbs)
        ≡ (if key == other then none else find_listener other cbs)
  unfolding erase_listener find_listener
  find-erase [] low high key other r = ground arith
  find-erase ((j, c) ∷ rest) low high key other r =
      ground (arith, find-erase rest j high key other r.2, find_above rest j high other r.2)

  find_beyond :
      (cbs : List (ℕ × Callback T W)) (low high key : ℕ)
      → Rising low high cbs
      → high < key
      → find_listener key cbs ≡ none
  unfolding find_listener
  find_beyond [] low high key r h = refl
  find_beyond ((j, c) ∷ rest) low high key r h = ground (arith, find_beyond rest j high key r.2)

  key_lem :
      (v : ConfigVar T W) (last_id : ℕ) → IsValid v last_id → (last_id + 1) % 2 ^ 64 ≡ last_id + 1
  key_lem v last_id h = omega (arith, h.counting)

  -- Adding a listener keeps the keys distinct and below the counter, up to the last number.
  pub add_listener-IsValid :
      (v : ConfigVar T W) (last_id : ℕ) (cb : Callback T W)
      → IsValid v last_id
      → last_id + 2 < 2 ^ 64
      → let (v', key) = add_listener v cb last_id in IsValid v' key
  unfolding add_listener
  add_listener-IsValid v last_id cb h room = rw (key_lem v last_id h) (record {
    rising =
        insert-Rising v.listeners 0 last_id (last_id + 1) cb h.rising (omega arith) (omega arith);
    counting = omega arith;
  })

  -- A listener gets a key that no other listener has, and is found under it; the others are
  -- found as before.
  pub get_listener-add_listener :
      (v : ConfigVar T W) (last_id other : ℕ) (cb : Callback T W)
      → IsValid v last_id
      → let (v', key) = add_listener v cb last_id in
        (get_listener v key ≡ none)
        × (get_listener v' other ≡ (if key == other then some cb else get_listener v other))
  unfolding add_listener
  get_listener-add_listener v last_id other cb h = rw (key_lem v last_id h) (
    find_beyond v.listeners 0 last_id (last_id + 1) h.rising (omega arith),
    find-insert v.listeners 0 last_id (last_id + 1) other cb h.rising (omega arith),
  )

  -- A listener that is deleted is gone, and the others stay.
  pub get_listener-del_listener :
      (v : ConfigVar T W) (last_id key other : ℕ)
      → IsValid v last_id
      → get_listener (del_listener v key) other
        ≡ (if key == other then none else get_listener v other)
  unfolding del_listener
  get_listener-del_listener v last_id key other h =
      find-erase v.listeners 0 last_id key other h.rising
