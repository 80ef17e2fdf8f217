-- ===== src/Mutex/Cas.antt =====
-- src/mutex/mutex.h: `CASLock`, a spin lock over an atomic flag, used by scoped locks and by
-- `try_lock`, with the threads' steps in any order.
pub mod Exclusion
use simple_http_server.Base.{ℕ, Bool, true, false, not, List, [], ◌∷◌, if◌then◌else◌, update}

-- `m_mutex.test_and_set()`: the flag behind it, and the value before.
abbrev pub test_and_set : Bool → Bool × Bool
test_and_set flag = (true, flag)

-- One test of the loop in `lock`: the flag, and whether the loop ends.
unfoldable pub lock_round : Bool → Bool × Bool
lock_round flag = let (flag', old) = test_and_set flag in (flag', not old)

unfoldable pub try_lock : Bool → Bool × Bool
try_lock flag = let (flag', old) = test_and_set flag in (flag', not old)

-- `m_mutex.clear()`
unfoldable pub clear : Bool → Bool
clear flag = false

-- Where a thread stands: it has no scoped lock; it is in the loop of `lock`, called by a scoped
-- lock; its scoped lock's flag `m_locked` is set or is not; or it has locked by `try_lock`.
pub data Phase : Type 0 where
  absent : Phase
  waiting : Phase
  locked : Phase
  unlocked : Phase
  tried : Phase

-- What a thread may do next: begin the constructor of a scoped lock, test once in the loop, call
-- the scoped lock's methods or its destructor, call `try_lock`, or undo that by `unlock`.
pub data Action : Type 0 where
  construct : Action
  test : Action
  lock : Action
  unlock : Action
  destroy : Action
  try : Action
  leave : Action

pub record System : Type 0 where
  pub flag : Bool
  pub phase : ℕ → Phase

-- All threads outside, and a new lock.
unfoldable pub initial : System
initial = record { flag = false; phase = λ i. absent }

abbrev pub enter : Bool × Bool → Phase → Phase → Bool × Phase
enter (flag, true) inside outside = (flag, inside)
enter (flag, false) inside outside = (flag, outside)

-- A step of one thread; an action that the thread cannot take changes nothing.
unfoldable pub act : Bool → Phase → Action → Bool × Phase
unfolding lock_round try_lock clear
act flag absent construct = (flag, waiting)
act flag absent try = enter (try_lock flag) tried absent
act flag waiting test = enter (lock_round flag) locked waiting
act flag locked lock = (flag, locked)
act flag locked unlock = (clear flag, unlocked)
act flag locked destroy = (clear flag, absent)
act flag unlocked lock = (flag, waiting)
act flag unlocked unlock = (flag, unlocked)
act flag unlocked destroy = (flag, absent)
act flag tried leave = (clear flag, absent)
act flag phase action = (flag, phase)

unfoldable pub step : System → ℕ → Action → System
unfolding act
step s i a =
    let (flag, phase) = act s.flag (s.phase i) a in
    record { flag = flag; phase = update s.phase i phase }

-- A run of the threads' steps in the order given.
unfoldable pub run : System → List (ℕ × Action) → System
unfolding step
run s [] = s
run s ((i, a) ∷ rest) = run (step s i a) rest
