-- ===== src/Scheduler/Run.antt =====
-- `Scheduler::run` of src/scheduler/scheduler.cpp.
use simple_http_server.Base.{ℕ, zero, suc, false, Option, none, some, if◌then◌else◌, update}
use simple_http_server.Fiber.{
  Result, ran, null_pointer, assertion_failed, and_then, deref, is_some, points_to, new_fiber,
  get_this, store_locals,
}
use simple_http_server.Scheduler.{
  Task, System, Turn, going_on, Picked, pick, tickle_if, increment, leave_active, settle,
  is_runnable, run_fiber, run_cb, run_idle, with_process,
}

-- The active threads behind the loop over the queue.
abbrev pub active_behind : Option Task → ℕ → ℕ
active_behind none n = n
active_behind (some ft) n = increment n

-- What the lock in the loop of `run` holds, and the call of `tickle` behind it: the task is taken
-- from the queue and counted as active.
unfoldable pub take : System → Picked → System
take s k =
    let c = s.scheduler in
    let active = active_behind k.task c.active_thread_count in
    let c' = record c { tasks = k.tasks; active_thread_count = active } in
    record s { scheduler = tickle_if k.tickle_me c' }

module _ (resume : ℕ → ℕ → System → System) where
  -- The branch for a fiber, behind its tests.
  unfoldable pub run_task_fiber : System → ℕ → Option ℕ → Option ℕ → Result Turn
  unfolding run_fiber settle
  run_task_fiber s t cb_fiber fiber =
      deref fiber
        (λ f. and_then (run_fiber resume s t f) (λ s'. ran (going_on (settle s' f) cb_fiber)))

  -- The branches on the task taken.
  unfoldable pub run_task : ℕ → System → ℕ → Option ℕ → Task → Result Turn
  unfolding run_task_fiber run_cb
  run_task configured s t cb_fiber ft =
      if is_runnable s.process ft.fiber
      then run_task_fiber s t cb_fiber ft.fiber
      else if is_some ft.cb
      then run_cb resume configured s t cb_fiber ft.cb
      else ran (going_on (leave_active s) cb_fiber)

  unfoldable pub run_picked : ℕ → System → ℕ → ℕ → Option ℕ → Option Task → Result Turn
  unfolding run_task run_idle
  run_picked configured s t idle_fiber cb_fiber none = run_idle s t idle_fiber cb_fiber
  run_picked configured s t idle_fiber cb_fiber (some ft) = run_task configured s t cb_fiber ft

  -- One turn of `while(true)`.
  unfoldable pub run_turn : ℕ → System → ℕ → ℕ → Option ℕ → Result Turn
  unfolding pick take run_picked
  run_turn configured s t idle_fiber cb_fiber =
      and_then (pick s.process t s.scheduler.tasks false)
        (λ k. run_picked configured (take s k) t idle_fiber cb_fiber k.task)

  -- The loop, with fuel for its turns; `none` is out of fuel.
  unfoldable pub run_loop : ℕ → ℕ → System → ℕ → ℕ → Option ℕ → Option (Result System)
  unfolding run_turn
  run_loop zero configured s t idle_fiber cb_fiber = none
  run_loop (suc fuel) configured s t idle_fiber cb_fiber =
      elim (run_turn configured s t idle_fiber cb_fiber) [
        | assertion_failed ↦ some assertion_failed
        | null_pointer ↦ some null_pointer
        | ran r ↦
            let rest = run_loop fuel configured r.system t idle_fiber r.cb_fiber in
            if r.over then some (ran r.system) else rest
      ]

  -- `setThis`, and the thread's main fiber for its scheduler fiber, but in the root thread.
  unfoldable pub run_start : System → ℕ → System
  unfolding get_this
  run_start s t =
      let s' = record s { current = update s.current t (some s.scheduler.address) } in
      if points_to s.scheduler.root_thread t
      then s'
      else let (p, f) = get_this s.process t in
        with_process s' (store_locals p t (record (p.locals t) { scheduler_fiber = some f }))

  -- `Scheduler::run`; the function of the idle fiber is `idle`, for which stands no number.
  unfoldable pub run : ℕ → ℕ → System → ℕ → Option (Result System)
  unfolding run_start new_fiber run_loop
  run fuel configured s t =
      let s' = run_start s t in
      let (p, idle_fiber) = new_fiber configured s'.process none 0 false in
      run_loop fuel configured (with_process s' p) t idle_fiber none
