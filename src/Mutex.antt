-- ===== src/Mutex.antt =====
-- src/mutex: the mutexes over pthread, and the scoped locks.
pub mod Cas
pub mod Scoped
use simple_http_server.Base.{ℕ, Bool, true, false, not, if◌then◌else◌, ◌==◌}

-- A call comes back with a state, or throws and leaves one.
pub data Attempt (A B : Type 0) : Type 0 where
  done : A → Attempt A B
  failed : B → Attempt A B

-- A call of pthread or of semaphores gives a code, which is 0 if all is well, and a new state.
abbrev pub Call : Type 0 → Type 0
Call M = M → ℕ × M

-- `if(pthread_…(&m)) throw std::logic_error(…);`
unfoldable pub checked : {M : Type 0} → Call M → M → Attempt M M
checked call m = let (code, m') = call m in if not (code == 0) then failed m' else done m'

-- `if(pthread_…(&m)) std::cerr << …;`: the new state, and whether a message is printed.
unfoldable pub reported : {M : Type 0} → Call M → M → M × Bool
reported call m = let (code, m') = call m in (m', not (code == 0))

-- pthread_mutex_t or pthread_spinlock_t, with what its functions do.
pub record PosixMutex (M : Type 0) : Type 0 where
  pub init : Call M
  pub destroy : Call M
  pub lock : Call M
  pub unlock : Call M

pub record PosixRwLock (M : Type 0) : Type 0 where
  pub init : Call M
  pub destroy : Call M
  pub rdlock : Call M
  pub wrlock : Call M
  pub unlock : Call M

pub record PosixSemaphore (M : Type 0) : Type 0 where
  pub init : ℕ → Call M
  pub destroy : Call M
  pub wait : Call M
  pub post : Call M

-- What the scoped locks ask of a mutex: `lock` and `unlock`, or `rdlock` and `unlock` and so on.
pub record Lockable (M : Type 0) : Type 0 where
  pub lock : M → Attempt M M
  pub unlock : M → Attempt M M

module _ {M : Type 0} where
  -- `Mutex`
  unfoldable pub new_mutex : PosixMutex M → M → Attempt M M
  unfolding checked
  new_mutex posix m = checked posix.init m

  unfoldable pub destroy_mutex : PosixMutex M → M → M × Bool
  unfolding reported
  destroy_mutex posix m = reported posix.destroy m

  abbrev pub mutex : PosixMutex M → Lockable M
  mutex posix = record { lock = checked posix.lock; unlock = checked posix.unlock }

  -- `SpinLock`
  unfoldable pub new_spin_lock : PosixMutex M → M → Attempt M M
  unfolding checked
  new_spin_lock posix m = checked posix.init m

  unfoldable pub destroy_spin_lock : PosixMutex M → M → M × Bool
  unfolding reported
  destroy_spin_lock posix m = reported posix.destroy m

  abbrev pub spin_lock : PosixMutex M → Lockable M
  spin_lock posix = record { lock = checked posix.lock; unlock = checked posix.unlock }

  -- `RWMutex`
  unfoldable pub new_rw_mutex : PosixRwLock M → M → Attempt M M
  unfolding checked
  new_rw_mutex posix m = checked posix.init m

  unfoldable pub destroy_rw_mutex : PosixRwLock M → M → M × Bool
  unfolding reported
  destroy_rw_mutex posix m = reported posix.destroy m

  abbrev pub read_side : PosixRwLock M → Lockable M
  read_side posix = record { lock = checked posix.rdlock; unlock = checked posix.unlock }

  abbrev pub write_side : PosixRwLock M → Lockable M
  write_side posix = record { lock = checked posix.wrlock; unlock = checked posix.unlock }

  -- `NullMutex` and `NullRWMutex`
  abbrev pub null_mutex : Lockable M
  null_mutex = record { lock = done; unlock = done }

  -- `Semaphore`
  unfoldable pub new_semaphore : PosixSemaphore M → ℕ → M → Attempt M M
  unfolding checked
  new_semaphore posix count m = checked (posix.init count) m

  unfoldable pub destroy_semaphore : PosixSemaphore M → M → M × Bool
  unfolding reported
  destroy_semaphore posix m = reported posix.destroy m

  unfoldable pub wait : PosixSemaphore M → M → Attempt M M
  unfolding checked
  wait posix m = checked posix.wait m

  unfoldable pub notify : PosixSemaphore M → M → Attempt M M
  unfolding checked
  notify posix m = checked posix.post m

-- The members of `ScopedLockImpl`, `ReadScopedLockImpl` and `WriteScopedLockImpl`, with the mutex
-- that they refer to. Their functions differ in what they call: `lock`, `rdlock` or `wrlock`.
pub record ScopedLock (M : Type 0) : Type 0 where
  pub mutex : M
  pub locked : Bool

module _ {M : Type 0} (l : Lockable M) where
  -- The constructor; if the mutex throws, there is no lock.
  unfoldable pub new_scoped : M → Attempt (ScopedLock M) M
  new_scoped m = elim (l.lock m) [
    | done m' ↦ done (record { mutex = m'; locked = true })
    | failed m' ↦ failed m'
  ]

  abbrev pub relock : ScopedLock M → Attempt M M → Attempt (ScopedLock M) (ScopedLock M)
  relock g (done m) = done (record { mutex = m; locked = true })
  relock g (failed m) = failed (record g { mutex = m })

  unfoldable pub lock_scoped : ScopedLock M → Attempt (ScopedLock M) (ScopedLock M)
  lock_scoped g = if not g.locked then relock g (l.lock g.mutex) else done g

  abbrev pub unlocked : ScopedLock M → Attempt M M → Attempt (ScopedLock M) (ScopedLock M)
  unlocked g (done m) = done (record { mutex = m; locked = false })
  unlocked g (failed m) = failed (record g { mutex = m })

  unfoldable pub unlock_scoped : ScopedLock M → Attempt (ScopedLock M) (ScopedLock M)
  unlock_scoped g = if g.locked then unlocked g (l.unlock g.mutex) else done g

  -- The destructor; an exception in it ends the program.
  unfoldable pub destroy_scoped : ScopedLock M → Attempt M M
  unfolding unlock_scoped
  destroy_scoped g = elim (unlock_scoped g) [
    | done g' ↦ done g'.mutex
    | failed g' ↦ failed g'.mutex
  ]

module _ {M : Type 0} (posix : PosixRwLock M) where
  -- `ReadScopedLockImpl` of a read-write lock.
  unfoldable pub new_read_scoped : M → Attempt (ScopedLock M) M
  unfolding new_scoped
  new_read_scoped = new_scoped (read_side posix)

  unfoldable pub lock_read_scoped : ScopedLock M → Attempt (ScopedLock M) (ScopedLock M)
  unfolding lock_scoped
  lock_read_scoped = lock_scoped (read_side posix)

  unfoldable pub unlock_read_scoped : ScopedLock M → Attempt (ScopedLock M) (ScopedLock M)
  unfolding unlock_scoped
  unlock_read_scoped = unlock_scoped (read_side posix)

  unfoldable pub destroy_read_scoped : ScopedLock M → Attempt M M
  unfolding destroy_scoped
  destroy_read_scoped = destroy_scoped (read_side posix)

  -- `WriteScopedLockImpl` of a read-write lock.
  unfoldable pub new_write_scoped : M → Attempt (ScopedLock M) M
  unfolding new_scoped
  new_write_scoped = new_scoped (write_side posix)

  unfoldable pub lock_write_scoped : ScopedLock M → Attempt (ScopedLock M) (ScopedLock M)
  unfolding lock_scoped
  lock_write_scoped = lock_scoped (write_side posix)

  unfoldable pub unlock_write_scoped : ScopedLock M → Attempt (ScopedLock M) (ScopedLock M)
  unfolding unlock_scoped
  unlock_write_scoped = unlock_scoped (write_side posix)

  unfoldable pub destroy_write_scoped : ScopedLock M → Attempt M M
  unfolding destroy_scoped
  destroy_write_scoped = destroy_scoped (write_side posix)
