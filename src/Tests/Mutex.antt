-- ===== src/Tests/Mutex.antt =====
-- Tests of scoped locks and of the spin lock.
use simple_http_server.Base.{ℕ, ◌≡◌, refl, Bool, ◌++◌, true, false, List, [], ◌∷◌, some, ◌⊎◌}
use simple_http_server.Mutex.{ScopedLock, new_scoped, lock_scoped, unlock_scoped, destroy_scoped}
use simple_http_server.Mutex.Scoped.{
  Event, acquired, released, is_held, recorder, Method, lock, unlock, call_method, call_each,
  is_held-destroy_scoped,
}
use simple_http_server.Mutex.Cas.{
  Action, construct, test, destroy, try, initial, locked, act, step, run, lock_round, try_lock,
  clear,
}
use simple_http_server.Mutex.Cas.Exclusion.{holds, mutual_exclusion, no_deadlock}

-- A mutex whose third call throws, for a lock that is unlocked, locked twice and destroyed.
abbrev third_fails : List Event → Bool
third_fails (a ∷ b ∷ []) = true
third_fails es = false

abbrev first_lock : ScopedLock (List Event)
first_lock = record { mutex = acquired ∷ []; locked = true }

abbrev calls : List Method
calls = unlock ∷ lock ∷ unlock ∷ []

is_held-destroy_scoped_example :
    (is_held (call_each (recorder third_fails) calls first_lock).mutex
      ≡ some (call_each (recorder third_fails) calls first_lock).locked)
    × (is_held (released ∷ acquired ∷ []) ≡ some false)
unfolding is_held new_scoped recorder call_each call_method lock_scoped unlock_scoped destroy_scoped
is_held-destroy_scoped_example =
    is_held-destroy_scoped third_fails calls [] (released ∷ acquired ∷ []) first_lock refl refl refl

-- Thread 1 takes the lock; thread 2 tries to.
abbrev contended : List (ℕ × Action)
contended = (1, construct) ∷ (2, construct) ∷ (1, test) ∷ (2, test) ∷ (3, try) ∷ []

abbrev holder : ℕ
holder = 1

mutual_exclusion_example : holder ≡ holder
unfolding run step act initial lock_round try_lock
mutual_exclusion_example = mutual_exclusion contended holder holder refl refl

no_deadlock_example :
    ((step (run initial contended) 2 test).phase 2 ≡ locked)
    ⊎ ((j : ℕ) × (holds ((run initial contended).phase j) ≡ true))
unfolding run step act initial lock_round try_lock
no_deadlock_example = no_deadlock contended 2 refl

-- Once thread 1 has destroyed its lock, thread 2 gets it.
handed_over : (run initial (contended ++ (1, destroy) ∷ (2, test) ∷ [])).phase 2 ≡ locked
unfolding run step act initial lock_round try_lock clear
handed_over = refl
