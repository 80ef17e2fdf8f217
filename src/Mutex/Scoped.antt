-- ===== src/Mutex/Scoped.antt =====
-- A scoped lock never locks a mutex that it holds, nor unlocks one that it does not hold.
use simple_http_server.Base.{
  ◌≡◌, Bool, true, false, List, [], ◌∷◌, Option, none, some, if◌then◌else◌, arith,
}
use simple_http_server.Mutex.{
  Attempt, done, failed, Lockable, ScopedLock, new_scoped, lock_scoped, unlock_scoped,
  destroy_scoped,
}

-- The calls of a mutex that have come back.
pub data Event : Type 0 where
  acquired : Event
  released : Event

-- Whether the mutex is held after its calls, the last one first; `none` if it has been locked while
-- it was held, or unlocked while it was not.
unfoldable pub is_held : List Event → Option Bool
is_held [] = some false
is_held (acquired ∷ es) = elim (is_held es) [ some false ↦ some true | _ ↦ none ]
is_held (released ∷ es) = elim (is_held es) [ some true ↦ some false | _ ↦ none ]

-- A mutex that remembers its calls; `fails` says which calls throw.
unfoldable pub recorder : (List Event → Bool) → Lockable (List Event)
recorder fails = record {
  lock = λ es. if fails es then failed es else done (acquired ∷ es);
  unlock = λ es. if fails es then failed es else done (released ∷ es);
}

-- The methods, called in any order, by a client that catches what they throw.
pub data Method : Type 0 where
  lock : Method
  unlock : Method

abbrev pub kept : {M : Type 0} → Attempt (ScopedLock M) (ScopedLock M) → ScopedLock M
kept (done g) = g
kept (failed g) = g

unfoldable pub call_method : {M : Type 0} → Lockable M → Method → ScopedLock M → ScopedLock M
call_method l lock g = kept (lock_scoped l g)
call_method l unlock g = kept (unlock_scoped l g)

unfoldable pub call_each : {M : Type 0} → Lockable M → List Method → ScopedLock M → ScopedLock M
call_each l [] g = g
call_each l (m ∷ ms) g = call_each l ms (call_method l m g)

abbrev pub Agrees : ScopedLock (List Event) → Type 0
Agrees g = is_held g.mutex ≡ some g.locked

call_method-Agrees :
    (fails : List Event → Bool) (m : Method) (g : ScopedLock (List Event))
    → Agrees g
    → Agrees (call_method (recorder fails) m g)
unfolding call_method lock_scoped unlock_scoped recorder is_held
call_method-Agrees fails lock g a = ground (arith, a)
call_method-Agrees fails unlock g a = ground (arith, a)

call_each-Agrees :
    (fails : List Event → Bool) (ms : List Method) (g : ScopedLock (List Event))
    → Agrees g
    → Agrees (call_each (recorder fails) ms g)
unfolding call_each
call_each-Agrees fails [] g a = a
call_each-Agrees fails (m ∷ ms) g a =
    call_each-Agrees fails ms (call_method (recorder fails) m g) (call_method-Agrees fails m g a)

new_scoped-Agrees :
    (fails : List Event → Bool) (es : List Event) (g : ScopedLock (List Event))
    → is_held es ≡ some false
    → new_scoped (recorder fails) es ≡ done g
    → Agrees g
unfolding new_scoped recorder is_held
new_scoped-Agrees fails es g h e = ground (arith, h, e)

destroy_scoped-Agrees :
    (fails : List Event → Bool) (g : ScopedLock (List Event)) (es : List Event)
    → Agrees g
    → destroy_scoped (recorder fails) g ≡ done es
    → is_held es ≡ some false
unfolding destroy_scoped unlock_scoped recorder is_held
destroy_scoped-Agrees fails g es a e = ground (arith, a, e)

-- Let a scoped lock be made for a mutex that is not held, its methods be called in any order,
-- and the lock be destroyed, where each call of the mutex may throw, and the client catches what
-- the methods throw. Then the mutex is never locked while it is held nor unlocked while it is not,
-- it is held exactly while the lock's flag is set, and it is not held after a destructor that
-- comes back.
pub is_held-destroy_scoped :
    (fails : List Event → Bool) (ms : List Method) (es es' : List Event)
    (g : ScopedLock (List Event))
    → is_held es ≡ some false
    → new_scoped (recorder fails) es ≡ done g
    → destroy_scoped (recorder fails) (call_each (recorder fails) ms g) ≡ done es'
    → (is_held (call_each (recorder fails) ms g).mutex
        ≡ some (call_each (recorder fails) ms g).locked)
      × (is_held es' ≡ some false)
is_held-destroy_scoped fails ms es es' g h made gone =
    let a = call_each-Agrees fails ms g (new_scoped-Agrees fails es g h made) in
    (a, destroy_scoped-Agrees fails (call_each (recorder fails) ms g) es' a gone)
