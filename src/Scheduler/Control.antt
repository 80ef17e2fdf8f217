-- ===== src/Scheduler/Control.antt =====
-- src/scheduler/scheduler.cpp: the constructor and destructor of `Scheduler`, `start`, `stop` and
-- `switchTo`.
use simple_http_server.Base.{
  ℕ, zero, suc, ◌+◌, ◌-◌, Bool, true, false, not, ◌&&◌, ◌||◌, List, [], ◌∷◌, ◌++◌, Option, none,
  some, if◌then◌else◌, ◌==◌, is_empty, update,
}
use simple_http_server.Base.Bytes.{Bytes}
use simple_http_server.Fiber.{
  init, term, same_state, Process, Result, ran, and_then, assert, is_some, points_to, store_locals,
  get_this, new_fiber, call, yield_to_hold,
}
use simple_http_server.Scheduler.{
  fiber_task, Scheduler, System, tickle, tickle_if, schedule, stopping, with_process,
  with_scheduler,
}

-- A scheduler before its constructor's body.
abbrev pub blank : ℕ → Bytes → ℕ → Scheduler
blank address name threads = record {
  address = address;
  name = name;
  threads = [];
  tasks = [];
  root_fiber = none;
  thread_ids = [];
  thread_count = threads;
  active_thread_count = 0;
  idle_thread_count = 0;
  is_stopping = true;
  auto_stop = false;
  root_thread = none;
  tickles = 0;
}

-- `use_caller`: the calling thread `t` gets a root fiber, whose function, named by `run`, is
-- `Scheduler::run`.
unfoldable pub use_thread : ℕ → ℕ → Process → (ℕ → Option ℕ) → ℕ → Scheduler → Result System
unfolding get_this new_fiber
use_thread configured run p current t s =
    let (p', main) = get_this p t in
    let (p'', root) = new_fiber configured p' (some run) 0 true in
    assert (not (is_some (current t))) (
      ran (record {
        process = store_locals p'' t (record (p''.locals t) { scheduler_fiber = some root });
        scheduler = record s {
          root_fiber = some root;
          root_thread = some t;
          thread_ids = some t ∷ [];
          thread_count = s.thread_count - 1;
        };
        current = update current t (some s.address);
      }))

-- The constructor.
unfoldable pub new_scheduler :
    ℕ → ℕ → Process → (ℕ → Option ℕ) → ℕ → ℕ → ℕ → Bool → Bytes → Result System
unfolding use_thread
new_scheduler configured run p current t address threads use_caller name =
    let s = blank address name threads in
    assert (not (threads == 0)) (
      if use_caller
      then use_thread configured run p current t s
      else ran (record { process = p; scheduler = s; current = current }))

-- The destructor.
unfoldable pub destroy_scheduler : System → ℕ → Result System
destroy_scheduler s t =
    let without = record s { current = update s.current t none } in
    assert s.scheduler.is_stopping
      (ran (if points_to (s.current t) s.scheduler.address then without else s))

-- The loop of `start`: thread `i` is named by `i`; `id_of i` is what its `getId` returns then.
unfoldable pub start_threads : (ℕ → Option ℕ) → ℕ → ℕ → Scheduler → Scheduler
start_threads id_of i zero s = s
start_threads id_of i (suc n) s =
    start_threads id_of (i + 1) n
      (record s { threads = s.threads ++ i ∷ []; thread_ids = s.thread_ids ++ id_of i ∷ [] })

unfoldable pub start : (ℕ → Option ℕ) → Scheduler → Result Scheduler
unfolding start_threads
start id_of s =
    if not s.is_stopping
    then ran s
    else assert (is_empty s.threads)
        (ran (start_threads id_of 0 s.thread_count (record s { is_stopping = false })))

abbrev pub tickle_times : ℕ → Scheduler → Scheduler
tickle_times zero s = s
tickle_times (suc n) s = tickle_times n (tickle s)

-- The first test of `stop`.
unfoldable pub has_idle_root : System → Bool
has_idle_root s = elim s.scheduler.root_fiber [
  | none ↦ false
  | some f ↦
      let state = (s.process.fiber f).state in
      (s.scheduler.thread_count == 0) && (same_state state term || same_state state init)
]

-- The assertion in `stop`: a scheduler that uses its caller is stopped there, any other elsewhere.
abbrev pub may_stop : System → ℕ → Bool
may_stop s t =
    let here = points_to (s.current t) s.scheduler.address in
    if is_some s.scheduler.root_thread then here else not here

-- `resume` as in `run`; `join i s` is what a system comes to until thread `i` has ended.
module _ (resume : ℕ → ℕ → System → System) (join : ℕ → System → System) where
  -- The call of the root fiber, unless all is done.
  unfoldable pub run_root : System → ℕ → Result System
  unfolding stopping call
  run_root s t = elim s.scheduler.root_fiber [
    | none ↦ ran s
    | some f ↦
        if not (stopping s.scheduler)
        then and_then (call s.process t f) (λ p. ran (resume t f (with_process s p)))
        else ran s
  ]

  unfoldable pub join_each : List ℕ → System → System
  join_each [] s = s
  join_each (i ∷ is) s = join_each is (join i s)

  unfoldable pub join_threads : System → System
  unfolding join_each
  join_threads s =
      join_each s.scheduler.threads (with_scheduler s (record s.scheduler { threads = [] }))

  -- `stop` behind its first test.
  unfoldable pub stop_running : System → ℕ → Result System
  unfolding run_root join_threads
  stop_running s t =
      let c = tickle_times s.scheduler.thread_count (record s.scheduler { is_stopping = true }) in
      assert (may_stop s t) (
        and_then (run_root (with_scheduler s (tickle_if (is_some c.root_fiber) c)) t)
          (λ r. ran (join_threads r)))

  unfoldable pub stop : System → ℕ → Result System
  unfolding has_idle_root stopping stop_running
  stop s t =
      let c = record s.scheduler { auto_stop = true } in
      let s' = with_scheduler s c in
      let c' = record c { is_stopping = true } in
      if has_idle_root s'
      then (if stopping c' then ran (with_scheduler s c') else stop_running (with_scheduler s c') t)
      else stop_running s' t

-- `switchTo`, up to the switch to the thread's scheduler fiber.
unfoldable pub switch_to : System → ℕ → Option ℕ → Result System
unfolding get_this schedule yield_to_hold
switch_to s t thread =
    let (p, f) = get_this s.process t in
    let s' = with_scheduler s (schedule s.scheduler (fiber_task f thread)) in
    let here =
      points_to (s.current t) s.scheduler.address && (not (is_some thread) || points_to thread t) in
    assert (is_some (s.current t))
      (if here then ran s else and_then (yield_to_hold p t) (λ p'. ran (with_process s' p')))
