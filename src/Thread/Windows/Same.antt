-- ===== src/Thread/Windows/Same.antt =====
-- The two platforms of src/thread/thread.cpp side by side.
use simple_http_server.Base.{
  Bool-cases, Option-cases, inl, inr, ℕ, ◌≡◌, refl, ap, true, List, [], ◌∷◌, Option, some, is_empty,
}
use simple_http_server.Base.Bytes.{Bytes}
use simple_http_server.Thread.{
  System, Release, joined, detached, waited, closed, new_thread, run, set_name, join, destroy,
}
use simple_http_server.Thread.Windows
use simple_http_server.Thread.Handle.{caught}

-- What a program does with threads: an object is made at an address, where the system gives the
-- handle, the thread behind an object begins, a thread sets its name, an object is joined, or
-- destroyed.
pub data Op : Type 0 where
  create : ℕ → Option ℕ → Bytes → ℕ → Op
  begin : ℕ → ℕ → Op
  rename : ℕ → Bytes → Op
  wait_for : ℕ → Op
  drop : ℕ → Op

-- The operations where no call of the system fails: over pthread, and on Windows.
unfoldable pub posix_step : System → Op → System
posix_step s (create p cb name h) = caught (new_thread s p cb name 0 h)
posix_step s (begin t p) = (run s t p).0
posix_step s (rename t name) = set_name s t name
posix_step s (wait_for p) = caught (join s p 0)
posix_step s (drop p) = destroy s p

unfoldable pub windows_step : System → Op → System
windows_step s (create p cb name h) = caught (Windows.new_thread s p cb name (some h))
windows_step s (begin t p) = (Windows.run s t p true).0
windows_step s (rename t name) = set_name s t name
windows_step s (wait_for p) = caught (Windows.join s p true)
windows_step s (drop p) = Windows.destroy s p

unfoldable pub posix_steps : System → List Op → System
posix_steps s [] = s
posix_steps s (op ∷ ops) = posix_steps (posix_step s op) ops

unfoldable pub windows_steps : System → List Op → System
windows_steps s [] = s
windows_steps s (op ∷ ops) = windows_steps (windows_step s op) ops

-- The handles that have been given back to the system.
unfoldable pub given_back : List Release → List ℕ
given_back [] = []
given_back (joined h ∷ rs) = h ∷ given_back rs
given_back (detached h ∷ rs) = h ∷ given_back rs
given_back (waited h ∷ rs) = given_back rs
given_back (closed h ∷ rs) = h ∷ given_back rs

-- The same objects and thread-local variables, and the same handles given back.
pub record IsSame (a b : System) : Type 0 where
  pub object : a.object ≡ b.object
  pub locals : a.locals ≡ b.locals
  pub handles : given_back a.releases ≡ given_back b.releases

module _ (a b : System) (e : IsSame a b) where
  create-IsSame :
      (p h : ℕ) (cb : Option ℕ) (name : Bytes)
      → IsSame (posix_step a (create p cb name h)) (windows_step b (create p cb name h))
  unfolding posix_step windows_step new_thread Windows.new_thread
  create-IsSame p h cb name = record {
    object = rw (e.object) refl;
    locals = e.locals;
    handles = e.handles;
  }

  begin-IsSame : (t p : ℕ) → IsSame (posix_step a (begin t p)) (windows_step b (begin t p))
  unfolding posix_step windows_step run Windows.run
  begin-IsSame t p = record {
    object = rw (e.object) refl;
    locals = rw (e.object, e.locals) refl;
    handles = e.handles;
  }

  rename-IsSame :
      (t : ℕ) (name : Bytes)
      → IsSame (posix_step a (rename t name)) (windows_step b (rename t name))
  unfolding posix_step windows_step set_name
  rename-IsSame t name = elim (Bool-cases (is_empty name)) [
    | inl n ↦ rw (n) e
    | inr n ↦ elim (Option-cases (b.locals t).thread) [
      | inl k ↦
          rw (e.locals, k, n) (record { object = e.object; locals = refl; handles = e.handles })
      | inr (p, k) ↦
          rw (e.locals, k, n)
            (record { object = rw (e.object) refl; locals = refl; handles = e.handles })
    ]
  ]

  wait_for-IsSame : (p : ℕ) → IsSame (posix_step a (wait_for p)) (windows_step b (wait_for p))
  unfolding posix_step windows_step join Windows.join given_back
  wait_for-IsSame p = elim (Option-cases (b.object p).handle) [
    | inl k ↦
        rw (e.object, Windows.join, k)
          (record { object = refl; locals = e.locals; handles = e.handles })
    | inr (h, k) ↦
        rw (e.object, Windows.join, k)
          (record { object = refl; locals = e.locals; handles = ap (λ hs. h ∷ hs) e.handles })
  ]

  drop-IsSame : (p : ℕ) → IsSame (posix_step a (drop p)) (windows_step b (drop p))
  unfolding posix_step windows_step destroy Windows.destroy given_back
  drop-IsSame p = elim (Option-cases (b.object p).handle) [
    | inl k ↦
        rw (e.object, Windows.destroy, k)
          (record { object = refl; locals = e.locals; handles = e.handles })
    | inr (h, k) ↦
        rw (e.object, Windows.destroy, k)
          (record { object = refl; locals = e.locals; handles = ap (λ hs. h ∷ hs) e.handles })
  ]

  step-IsSame : (op : Op) → IsSame (posix_step a op) (windows_step b op)
  step-IsSame (create p cb name h) = create-IsSame p h cb name
  step-IsSame (begin t p) = begin-IsSame t p
  step-IsSame (rename t name) = rename-IsSame t name
  step-IsSame (wait_for p) = wait_for-IsSame p
  step-IsSame (drop p) = drop-IsSame p

steps-IsSame :
    (a b : System) → IsSame a b → (ops : List Op) → IsSame (posix_steps a ops) (windows_steps b ops)
unfolding posix_steps windows_steps
steps-IsSame a b e [] = e
steps-IsSame a b e (op ∷ ops) =
    steps-IsSame (posix_step a op) (windows_step b op) (step-IsSame a b e op) ops

-- A program makes objects, lets their threads begin and set their names, and joins and destroys
-- objects, in any order, and no call of the system fails. Then over pthread and on Windows it has
-- the same objects and the same thread-local variables, and has given the same handles back in the
-- same order.
pub windows_steps-posix_steps :
    (s : System) (ops : List Op) → IsSame (posix_steps s ops) (windows_steps s ops)
windows_steps-posix_steps s ops =
    steps-IsSame s s (record { object = refl; locals = refl; handles = refl }) ops
