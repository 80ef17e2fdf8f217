-- ===== src/Scheduler/Yield.antt =====
-- What becomes of a task whose fiber gives the processor up.
use simple_http_server.Base.{
  ℕ, ◌≡◌, refl, sym, false, [], ◌∷◌, ◌++◌, Option, none, arith, ap, ◌∙◌, is_empty,
}
use simple_http_server.Fiber.{
  exec, hold, ready, Process, Result, ran, and_then, swap_in, yield_to_ready, yield_to_hold,
}
use simple_http_server.Fiber.Switch.{
  CanSwap, IsBack, entered, swap_in_switches, entered-IsIn, swap_out_switches, swap_out-IsBack,
  yield_to_hold_inside, swap_in-yield_to_ready,
}
use simple_http_server.Scheduler.{
  fiber_task, Scheduler, System, going_on, with_process, with_scheduler, leave_active, run_fiber,
  is_over, settle, schedule, put_on_hold, tickle_if,
}
use simple_http_server.Scheduler.Run.{run_task_fiber, run_task}
use simple_http_server.Scheduler.Drain.{process_of}

-- A fiber that yields at once.
pub yielding : (Process → ℕ → Result Process) → ℕ → ℕ → System → System
yielding yield t f s = with_process s (process_of s.process (yield s.process t))

run_fiber-yielding :
    (yield : Process → ℕ → Result Process) (s : System) (t f m : ℕ) (q : Process)
    → CanSwap s.process t f m
    → and_then (swap_in s.process t f) (λ p. yield p t) ≡ ran q
    → run_fiber (yielding yield) s t f ≡ ran (leave_active (with_process s q))
unfolding run_fiber yielding process_of
run_fiber-yielding yield s t f m q c e =
    let e' : yield (entered s.process t f m) t ≡ ran q =
      sym (ap (λ r. and_then r (λ p. yield p t)) (swap_in_switches s.process t f m c)) ∙ e in
    rw (swap_in_switches s.process t f m c, e') refl

run_task-yielding :
    (yield : Process → ℕ → Result Process) (configured : ℕ) (s : System) (t f m : ℕ)
    (cb_fiber thread : Option ℕ) (q : Process)
    → CanSwap s.process t f m
    → is_over (s.process.fiber f).state ≡ false
    → and_then (swap_in s.process t f) (λ p. yield p t) ≡ ran q
    → run_task (yielding yield) configured s t cb_fiber (fiber_task f thread)
      ≡ ran (going_on (settle (leave_active (with_process s q)) f) cb_fiber)
unfolding run_task run_task_fiber
run_task-yielding yield configured s t f m cb_fiber thread q c h e =
    rw (h, run_fiber-yielding yield s t f m q c e) refl

schedule-fiber :
    (s : Scheduler) (f : ℕ)
    → schedule s (fiber_task f none)
      ≡ tickle_if (is_empty s.tasks) (record s { tasks = s.tasks ++ fiber_task f none ∷ [] })
unfolding schedule
schedule-fiber s f = refl

settle_ready :
    (s : System) (f : ℕ)
    → (s.process.fiber f).state ≡ ready
    → settle s f
      ≡ with_scheduler s (
          tickle_if
            (is_empty s.scheduler.tasks)
            (record s.scheduler { tasks = s.scheduler.tasks ++ fiber_task f none ∷ [] }))
unfolding settle schedule
settle_ready s f e = rw (e) refl

settle_hold : (s : System) (f : ℕ) → (s.process.fiber f).state ≡ exec → settle s f ≡ put_on_hold s f
unfolding settle
settle_hold s f e = rw (e) refl

-- If the fiber of a task, one that can be switched into and is not over, yields with
-- `YieldToReady`, then its turn ends with the fiber at the end of the queue, for any thread, in a
-- state to be switched into again.
pub run_task-yield_to_ready :
    (configured : ℕ) (s : System) (t f m : ℕ) (cb_fiber thread : Option ℕ)
    → CanSwap s.process t f m
    → is_over (s.process.fiber f).state ≡ false
    → (s' : System) × (run_task
          (yielding yield_to_ready)
          configured
          s
          t
          cb_fiber
          (fiber_task f thread)
        ≡ ran (going_on s' cb_fiber))
      × (s'.scheduler.tasks ≡ s.scheduler.tasks ++ fiber_task f none ∷ [])
      × ((s'.process.fiber f).state ≡ ready)
      × CanSwap s'.process t f m
run_task-yield_to_ready configured s t f m cb_fiber thread c h =
    let (q, e, b, c') = swap_in-yield_to_ready s.process t f m c in
    let st : (q.fiber f).state ≡ ready = ap (λ z. z.state) b.fiber in
    let left = leave_active (with_process s q) in
    (
      with_scheduler left (
          tickle_if (is_empty left.scheduler.tasks)
            (record left.scheduler { tasks = left.scheduler.tasks ++ fiber_task f none ∷ [] })),
      run_task-yielding yield_to_ready configured s t f m cb_fiber thread q c h e
          ∙ ap (λ z. ran (going_on z cb_fiber)) (settle_ready left f st),
      ground arith,
      st,
      c',
    )

yield_to_hold-IsBack :
    (p : Process) (t f m : ℕ)
    → CanSwap p t f m
    → (q : Process) × (and_then (swap_in p t f) (λ r. yield_to_hold r t) ≡ ran q)
      × IsBack p t f m (record (p.fiber f) { state = exec }) q
yield_to_hold-IsBack p t f m c =
    let i = entered-IsIn p t f m c in
    (
      _,
      rw (swap_in_switches p t f m c, yield_to_hold_inside p t f m _ (entered p t f m) i refl)
          (swap_out_switches (entered p t f m) t f m i.scheduler),
      swap_out-IsBack p t f m _ _ c.other i,
    )

-- If the fiber of a task, one that can be switched into and is not over, yields with
-- `YieldToHold`, then its turn ends with the queue as it was and the fiber in state HOLD, to be
-- switched into again: the scheduler sets the state that `YieldToHold` does not.
pub run_task-yield_to_hold :
    (configured : ℕ) (s : System) (t f m : ℕ) (cb_fiber thread : Option ℕ)
    → CanSwap s.process t f m
    → is_over (s.process.fiber f).state ≡ false
    → (s' : System) × (run_task
          (yielding yield_to_hold)
          configured
          s
          t
          cb_fiber
          (fiber_task f thread)
        ≡ ran (going_on s' cb_fiber))
      × (s'.scheduler.tasks ≡ s.scheduler.tasks)
      × ((s'.process.fiber f).state ≡ hold)
      × CanSwap s'.process t f m
run_task-yield_to_hold configured s t f m cb_fiber thread c h =
    let (q, e, b) = yield_to_hold-IsBack s.process t f m c in
    let st : (q.fiber f).state ≡ exec = ap (λ z. z.state) b.fiber in
    let left = leave_active (with_process s q) in
    (
      put_on_hold left f,
      run_task-yielding yield_to_hold configured s t f m cb_fiber thread q c h e
          ∙ ap (λ z. ran (going_on z cb_fiber)) (settle_hold left f st),
      refl,
      ground arith,
      record {
        scheduler = b.scheduler;
        other = c.other;
        not_running = ground arith;
        own_stack = ground (arith, b.fiber);
      },
    )
