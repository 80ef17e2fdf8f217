-- ===== src/Scheduler/Range.antt =====
-- src/scheduler/scheduler.h: `schedule` for a range of fibers or functions, which are given by
-- pointers to the caller's own, and the task constructors that take from these.
pub mod Moves
use simple_http_server.Base.{
  ℕ, Bool, true, false, ◌||◌, List, [], ◌∷◌, Option, none, some, if◌then◌else◌,
}
use simple_http_server.Scheduler.{Task, Scheduler, tickle_if, schedule_no_lock}

-- What the range holds.
pub data Kind : Type 0 where
  fibers : Kind
  functions : Kind

-- `FiberAndThread(Fiber::ptr* f, int thr)` and `FiberAndThread(std::function<void()>* f, int thr)`:
-- the task, and what `*f` is then.
unfoldable pub take_from : Kind → Option ℕ → Option ℕ → Task × Option ℕ
take_from fibers f thread = (record { fiber = f; cb = none; thread = thread }, none)
take_from functions f thread = (record { fiber = none; cb = f; thread = thread }, none)

-- `FiberAndThread()`, and what `reset` makes of a task.
abbrev pub empty_task : Task
empty_task = record { fiber = none; cb = none; thread = none }

abbrev pub reset_task : Task → Task
reset_task ft = empty_task

-- The loop of `schedule(begin, end)`, with `need_tickle`, and what it leaves in the range.
unfoldable pub schedule_range_each :
    Kind → Scheduler → List (Option ℕ) → Bool → Scheduler × Bool × List (Option ℕ)
unfolding take_from schedule_no_lock
schedule_range_each k s [] need = (s, need, [])
schedule_range_each k s (f ∷ fs) need =
    let (ft, f') = take_from k f none in
    let (s', empty) = schedule_no_lock s ft in
    let (s'', need', fs') = schedule_range_each k s' fs (empty || need) in (s'', need', f' ∷ fs')

-- `schedule(begin, end)`
unfoldable pub schedule_range : Kind → Scheduler → List (Option ℕ) → Scheduler × List (Option ℕ)
unfolding schedule_range_each
schedule_range k s fs =
    let (s', need, fs') = schedule_range_each k s fs false in (tickle_if need s', fs')
