-- ===== src/Thread/Name.antt =====
-- The name of a running thread.
use simple_http_server.Base.{
  ℕ, ◌≤◌, ◌≡◌, refl, false, List, [], ◌∷◌, ◌++◌, Option, some, length, take, drop, length-take,
  take-drop, is_empty, arith, Bool-cases, inl, inr, ◌∙◌,
}
use simple_http_server.Base.Bytes.{Bytes}
use simple_http_server.Thread.{System, get_this, get_name, set_name, run, new_thread}
use simple_http_server.Mutex.{done}

-- The object of the running thread `t` stands at `p`; both have one name, which is not empty.
pub record IsNamed (s : System) (t p : ℕ) : Type 0 where
  pub this : get_this s t ≡ some p
  pub same_name : get_name s t ≡ (s.object p).name
  pub named : is_empty (get_name s t) ≡ false

-- Calls of `SetName` in thread `t`.
unfoldable pub set_names : System → ℕ → List Bytes → System
set_names s t [] = s
set_names s t (name ∷ names) = set_names (set_name s t name) t names

set_name-IsNamed :
    (s : System) (t p : ℕ) (name : Bytes) → IsNamed s t p → IsNamed (set_name s t name) t p
unfolding set_name
set_name-IsNamed s t p name v = elim (Bool-cases (is_empty name)) [
  | inl e ↦ rw (e) v
  | inr e ↦
      rw (e, v.this)
        (record {
          this = ground (arith, v.this);
          same_name = ground arith;
          named = ground (arith, e);
        })
]

set_names-IsNamed :
    (s : System) (t p : ℕ) (names : List Bytes) → IsNamed s t p → IsNamed (set_names s t names) t p
unfolding set_names
set_names-IsNamed s t p [] v = v
set_names-IsNamed s t p (name ∷ names) v =
    set_names-IsNamed (set_name s t name) t p names (set_name-IsNamed s t p name v)

run-IsNamed :
    (s : System) (t p : ℕ) → is_empty (s.object p).name ≡ false → IsNamed (run s t p).0 t p
unfolding run
run-IsNamed s t p h = record {
  this = ground arith;
  same_name = ground arith;
  named = ground (arith, h);
}

new_thread-named :
    (s s' : System) (p : ℕ) (cb : Option ℕ) (name : Bytes) (code handle : ℕ)
    → new_thread s p cb name code handle ≡ done s'
    → is_empty (s'.object p).name ≡ false
unfolding new_thread
new_thread-named s s' p cb name code handle made = ground (arith, made)

set_name-kernel_name :
    (s : System) (t : ℕ) (name : Bytes) → (set_name s t name).kernel_name ≡ s.kernel_name
unfolding set_name
set_name-kernel_name s t name = ground arith

set_names-kernel_name :
    (s : System) (t : ℕ) (names : List Bytes) → (set_names s t names).kernel_name ≡ s.kernel_name
unfolding set_names
set_names-kernel_name s t [] = refl
set_names-kernel_name s t (name ∷ names) =
    set_names-kernel_name (set_name s t name) t names ∙ set_name-kernel_name s t name

run-kernel_name : (s : System) (t p : ℕ) → (run s t p).0.kernel_name t ≡ take 15 (s.object p).name
unfolding run
run-kernel_name s t p = ground arith

-- If a thread has been made, it runs, and it calls `SetName` any number of times, then it is the
-- current thread's object, it has one name in the object and in the thread, and the name is not
-- empty.
pub set_names-run :
    (s s' : System) (p t : ℕ) (cb : Option ℕ) (name : Bytes) (code handle : ℕ) (names : List Bytes)
    → new_thread s p cb name code handle ≡ done s'
    → IsNamed (set_names (run s' t p).0 t names) t p
set_names-run s s' p t cb name code handle names made =
    set_names-IsNamed (run s' t p).0 t p names
      (run-IsNamed s' t p (new_thread-named s s' p cb name code handle made))

-- When a thread has begun to run, and whatever names it sets then, the kernel's name for it has
-- 15 bytes at most and is a prefix of the name that its object had at the beginning.
pub kernel_name-run :
    (s : System) (p t : ℕ) (names : List Bytes)
    → (length ((set_names (run s t p).0 t names).kernel_name t) ≤ 15)
      × (rest : Bytes) × ((set_names (run s t p).0 t names).kernel_name t ++ rest
          ≡ (s.object p).name)
kernel_name-run s p t names =
    rw (set_names-kernel_name (run s t p).0 t names, run-kernel_name s t p)
      (let e = take-drop 15 (s.object p).name in
        (length-take 15 (s.object p).name, drop 15 (s.object p).name, e))
