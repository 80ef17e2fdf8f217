-- ===== src/Locks.antt =====
-- The mutexes that calls into src/_log, src/config and src/scheduler hold together: which scoped
-- locks a call takes and gives back, and the steps of threads that make such calls.
pub mod Progress
pub mod Fits
pub mod Log
pub mod Config
pub mod Calls
use simple_http_server.Base.{
  ℕ, zero, suc, ◌≡◌, Bool, true, false, not, ◌&&◌, ◌||◌, List, [], ◌∷◌, ◌++◌, Option, none, some,
  if◌then◌else◌, ◌==◌, ltb,
}

-- A mutex: the class of the object that it is a member of, as a number, and the object.
pub record Lock : Type 0 where
  pub class : ℕ
  pub address : ℕ

-- How many classes there are.
abbrev pub classes : ℕ
classes = 6

abbrev pub scheduler_lock : ℕ → Lock
scheduler_lock s = record { class = 0; address = s }

abbrev pub config_lock : Lock
config_lock = record { class = 1; address = 0 }

abbrev pub var_lock : ℕ → Lock
var_lock v = record { class = 2; address = v }

abbrev pub manager_lock : Lock
manager_lock = record { class = 3; address = 0 }

abbrev pub logger_lock : ℕ → Lock
logger_lock p = record { class = 4; address = p }

abbrev pub appender_lock : ℕ → Lock
appender_lock a = record { class = 5; address = a }

-- A scoped lock, which is shared with others of its kind if it is a `ReadLock`.
pub record Hold : Type 0 where
  pub lock : Lock
  pub shared : Bool

abbrev pub same_lock : Lock → Lock → Bool
same_lock k l = k.class == l.class && k.address == l.address

-- What a thread does with locks, in its order.
pub data Action : Type 0 where
  acquire : Hold → Action
  release : Action

abbrev pub Trace : Type 0
Trace = List Action

-- `MutexType::Lock lock(m_mutex);` around a body, and the two locks of a read-write mutex.
abbrev pub scoped : Hold → Trace → Trace
scoped h body = acquire h ∷ body ++ release ∷ []

abbrev pub locked : Lock → Trace → Trace
locked l body = scoped (record { lock = l; shared = false }) body

abbrev pub read_locked : Lock → Trace → Trace
read_locked l body = scoped (record { lock = l; shared = true }) body

-- The locks taken on an object that may be missing.
abbrev pub on_found : {A : Type 0} → Option A → Trace → (A → Trace) → Trace
on_found none missing found = missing
on_found (some a) missing found = found a

-- A thread: the scoped locks that it has, the last one first, and what it is still to do. The
-- scoped locks of a thread end in the reverse order of their beginnings.
pub record Thread : Type 0 where
  pub held : List Hold
  pub rest : Trace

-- Two scoped locks that cannot be at the same time.
abbrev pub conflicts : Hold → Hold → Bool
conflicts h k = same_lock h.lock k.lock && not (h.shared && k.shared)

unfoldable pub conflicts_any : Hold → List Hold → Bool
conflicts_any h [] = false
conflicts_any h (k ∷ ks) = conflicts h k || conflicts_any h ks

unfoldable pub is_blocked : Hold → List Thread → Bool
unfolding conflicts_any
is_blocked h [] = false
is_blocked h (t ∷ ts) = conflicts_any h t.held || is_blocked h ts

-- Whether a thread can do its next action among all threads, itself included: a mutex that the
-- thread has already blocks it too.
unfoldable pub can_move : List Thread → Trace → Bool
unfolding is_blocked
can_move ts [] = false
can_move ts (acquire h ∷ rest) = not (is_blocked h ts)
can_move ts (release ∷ rest) = true

abbrev pub pop : List Hold → List Hold
pop [] = []
pop (h ∷ hs) = hs

unfoldable pub advance : List Hold → Trace → Thread
advance held [] = record { held = held; rest = [] }
advance held (acquire h ∷ rest) = record { held = h ∷ held; rest = rest }
advance held (release ∷ rest) = record { held = pop held; rest = rest }

-- A step of the `i`-th thread of `ts` among all threads, or nothing if it cannot move.
unfoldable pub step_in : List Thread → ℕ → List Thread → List Thread
unfolding can_move advance
step_in all i [] = []
step_in all zero (t ∷ ts) = (if can_move all t.rest then advance t.held t.rest else t) ∷ ts
step_in all (suc i) (t ∷ ts) = t ∷ step_in all i ts

-- The threads' steps in an order.
unfoldable pub run : List Thread → List ℕ → List Thread
unfolding step_in
run ts [] = ts
run ts (i ∷ is) = run (step_in ts i ts) is

-- The thread has nothing left to do.
unfoldable pub IsDone : Thread → Type 0
IsDone t = t.rest ≡ []

-- Whether the `i`-th thread can move.
unfoldable pub can_step_in : List Thread → ℕ → List Thread → Bool
unfolding can_move
can_step_in all i [] = false
can_step_in all zero (t ∷ ts) = can_move all t.rest
can_step_in all (suc i) (t ∷ ts) = can_step_in all i ts

-- A lock may be taken if its class comes behind those of all locks that are held.
abbrev pub is_below : ℕ → List Hold → Bool
is_below c [] = true
is_below c (h ∷ hs) = ltb h.lock.class c && is_below c hs

-- A thread takes every lock in the order of the classes, and gives back what it has.
unfoldable pub is_ordered : List Hold → Trace → Bool
is_ordered [] [] = true
is_ordered (h ∷ hs) [] = false
is_ordered hs (acquire h ∷ rest) =
    ltb h.lock.class classes && (is_below h.lock.class hs && is_ordered (h ∷ hs) rest)
is_ordered [] (release ∷ rest) = false
is_ordered (h ∷ hs) (release ∷ rest) = is_ordered hs rest

unfoldable pub IsOrdered : Thread → Type 0
IsOrdered t = is_ordered t.held t.rest ≡ true
