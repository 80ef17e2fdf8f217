-- ===== src/Thread.antt =====
-- src/thread: threads over pthread, and the name that a thread has.
pub mod Name
pub mod Handle
pub mod Windows
pub mod Posix
use simple_http_server.Base.{
  ℕ, zero, suc, Bool, true, false, not, List, [], ◌∷◌, ◌++◌, Option, none, some, if◌then◌else◌,
  ◌==◌, is_empty, update, take,
}
use simple_http_server.Base.Bytes.{Bytes, codes}
use simple_http_server.Mutex.{Attempt, done, failed}

-- The members of `Thread`: an `m_id` of -1 and an `m_thread` of 0 are `none`; `m_cb` is a function
-- named by a number, or empty.
pub record Thread : Type 0 where
  pub id : Option ℕ
  pub handle : Option ℕ
  pub cb : Option ℕ
  pub name : Bytes

-- The thread-local variables `t_thread`, an address, and `t_thread_name`.
pub record Locals : Type 0 where
  pub thread : Option ℕ
  pub thread_name : Bytes

-- What has been done with the handle of a thread of the system: over pthread it is joined or
-- detached, on Windows it is waited for and closed.
pub data Release : Type 0 where
  joined : ℕ → Release
  detached : ℕ → Release
  waited : ℕ → Release
  closed : ℕ → Release

-- The objects by address, the variables by thread, the names that the kernel keeps, and the
-- handles given back, the last one first.
pub record System : Type 0 where
  pub object : ℕ → Thread
  pub locals : ℕ → Locals
  pub kernel_name : ℕ → Bytes
  pub releases : List Release

abbrev pub unknown_name : Bytes
unknown_name = codes "UNKNOW"

-- Before anything has been set in a thread.
abbrev pub first_locals : Locals
first_locals = record { thread = none; thread_name = unknown_name }

abbrev pub store_object : System → ℕ → Thread → System
store_object s p x = record s { object = update s.object p x }

-- `Thread::GetThis` and `Thread::GetName`
abbrev pub get_this : System → ℕ → Option ℕ
get_this s t = (s.locals t).thread

abbrev pub get_name : System → ℕ → Bytes
get_name s t = (s.locals t).thread_name

abbrev pub rename_object : System → Option ℕ → Bytes → System
rename_object s none name = s
rename_object s (some p) name = store_object s p (record (s.object p) { name = name })

-- `Thread::SetName`
unfoldable pub set_name : System → ℕ → Bytes → System
set_name s t name =
    let s' = rename_object s (s.locals t).thread name in
    if is_empty name
    then s
    else record s' { locals = update s'.locals t (record (s'.locals t) { thread_name = name }) }

-- The constructor, at address `p`, where `pthread_create` gives a code and a handle.
unfoldable pub new_thread : System → ℕ → Option ℕ → Bytes → ℕ → ℕ → Attempt System System
new_thread s p cb name code handle =
    let made : Thread = record {
      id = none;
      handle = none;
      cb = cb;
      name = if is_empty name then unknown_name else name;
    } in
    if not (code == 0)
    then failed (store_object s p made)
    else done (store_object s p (record made { handle = some handle }))

-- `Thread::run` in the system's thread `t` for the object at `p`, up to the call of the function,
-- which is given as well; an empty one throws.
unfoldable pub run : System → ℕ → ℕ → System × Option ℕ
unfolding take
run s t p =
    let x = s.object p in
    (
      record s {
        object = update s.object p (record x { id = some t; cb = none });
        locals = update s.locals t (record { thread = some p; thread_name = x.name });
        kernel_name = update s.kernel_name t (take 15 x.name);
      },
      x.cb,
    )

abbrev pub join_handle : System → ℕ → Option ℕ → ℕ → Attempt System System
join_handle s p none code = done s
join_handle s p (some h) code =
    let s' = store_object s p (record (s.object p) { handle = none }) in
    if not (code == 0) then failed s else done (record s' { releases = joined h ∷ s.releases })

-- `Thread::join`, where `pthread_join`, if it is called, gives the code.
unfoldable pub join : System → ℕ → ℕ → Attempt System System
join s p code = join_handle s p (s.object p).handle code

abbrev pub detach : System → Option ℕ → System
detach s none = s
detach s (some h) = record s { releases = detached h ∷ s.releases }

-- The destructor.
unfoldable pub destroy : System → ℕ → System
destroy s p = detach s (s.object p).handle
