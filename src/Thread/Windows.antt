-- ===== src/Thread/Windows.antt =====
-- src/thread/thread.cpp, the branches for Windows.
pub mod Same
use simple_http_server.Base.{
  ℕ, Bool, true, false, not, ◌+◌, ltb, map, List, [], ◌∷◌, Option, none, some, if◌then◌else◌,
  is_empty, update,
}
use simple_http_server.Base.Bytes.{Bytes}
use simple_http_server.Mutex.{Attempt, done, failed}
use simple_http_server.Thread.{Thread, System, unknown_name, store_object, closed, waited}

-- The constructor, at address `p`; `created` is what `CreateThread` gives, null if it fails.
unfoldable pub new_thread : System → ℕ → Option ℕ → Bytes → Option ℕ → Attempt System System
new_thread s p cb name created =
    let made : Thread = record {
      id = none;
      handle = none;
      cb = cb;
      name = if is_empty name then unknown_name else name;
    } in
    elim created [
      | none ↦ failed (store_object s p made)
      | some h ↦ done (store_object s p (record made { handle = some h }))
    ]

-- A `char` as a `wchar_t` of 16 bits.
unfoldable pub wide : ℕ → ℕ
wide c = if ltb c 128 then c else c + 65280

-- `Thread::run` in the system's thread `t` for the object at `p`, up to the call of the function,
-- which is given as well, or up to `return 1`, when no function is called; an empty function
-- throws. `described` is whether `SetThreadDescription` succeeds.
unfoldable pub run : System → ℕ → ℕ → Bool → System × Option (Option ℕ)
run s t p described =
    let x = s.object p in
    let s' = record s {
      object = update s.object p (record x { id = some t });
      locals = update s.locals t (record { thread = some p; thread_name = x.name });
    } in
    if not described then (s', none) else (
      record s' {
        object = update s.object p (record x { id = some t; cb = none });
        kernel_name = update s.kernel_name t (map wide x.name);
      },
      some x.cb,
    )

abbrev pub close : System → ℕ → System
close s h = record s { releases = closed h ∷ s.releases }

-- `Thread::join`; `exited` is whether `GetExitCodeThread`, if it is called, succeeds.
unfoldable pub join : System → ℕ → Bool → Attempt System System
join s p exited = elim (s.object p).handle [
  | none ↦ done s
  | some h ↦
      let s' = record s { releases = waited h ∷ s.releases } in
      if not exited
      then failed s'
      else done (store_object (close s' h) p (record (s.object p) { handle = none }))
]

-- The destructor.
unfoldable pub destroy : System → ℕ → System
destroy s p = elim (s.object p).handle [ none ↦ s | some h ↦ close s h ]
