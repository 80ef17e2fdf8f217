-- ===== src/Scheduler/Switch.antt =====
-- What `switchTo` does to the running fiber.
use simple_http_server.Base.{
  ℕ, ◌≡◌, refl, ◌≢◌, true, false, not, ◌&&◌, ◌||◌, [], ◌∷◌, ◌++◌, Option, some, arith, ap, ◌∙◌,
}
use simple_http_server.Fiber.{
  exec, Process, ran, assert, same_state, set_this, swapcontext, swap_out, yield_to_hold, is_some,
  points_to,
}
use simple_http_server.Fiber.Switch.{get_this_current, swap_out_switches}
use simple_http_server.Scheduler.{
  fiber_task, Scheduler, System, schedule, is_running, with_process, with_scheduler,
}
use simple_http_server.Scheduler.Control.{switch_to}

-- Fiber `f` is the current one of thread `t` and is running, and the scheduler's fiber of the
-- thread is another one, `m`.
pub record IsCurrent (p : Process) (t f m : ℕ) : Type 0 where
  pub current : (p.locals t).fiber ≡ some f
  pub running : (p.fiber f).state ≡ exec
  pub scheduler : (p.locals t).scheduler_fiber ≡ some m
  pub other : m ≢ f

-- The process behind the switch to the scheduler's fiber.
switched : Process → ℕ → ℕ → ℕ → Process
switched p t f m = swapcontext (set_this p t (p.locals t).scheduler_fiber) t f m

yield_to_hold-switched :
    (p : Process) (t f m : ℕ) → IsCurrent p t f m → yield_to_hold p t ≡ ran (switched p t f m)
unfolding yield_to_hold switched
yield_to_hold-switched p t f m c = rw (get_this_current p t f c.current) (
    ap (λ z. assert (same_state z exec) (swap_out p t f)) c.running
    ∙ swap_out_switches p t f m c.scheduler)

switched-state :
    (p : Process) (t f m : ℕ) → IsCurrent p t f m → ((switched p t f m).fiber f).state ≡ exec
unfolding switched swapcontext set_this
switched-state p t f m c = ground (arith, c.running)

switched-current :
    (p : Process) (t f m : ℕ) → IsCurrent p t f m → ((switched p t f m).locals t).fiber ≡ some m
unfolding switched swapcontext set_this
switched-current p t f m c = ground (arith, c.scheduler)

schedule-tasks :
    (s : Scheduler) (f : ℕ) (thread : Option ℕ)
    → (schedule s (fiber_task f thread)).tasks ≡ s.tasks ++ fiber_task f thread ∷ []
unfolding schedule
schedule-tasks s f thread = ground arith

-- If `switchTo` is called for another thread, or in a thread of another scheduler, then the
-- running fiber is put at the end of the queue for the thread wanted, and the calling thread goes
-- on with its own scheduler's fiber; the fiber is still in state EXEC, in which no thread takes it
-- from the queue.
pub switch_to-tasks :
    (s : System) (t f m : ℕ) (thread : Option ℕ)
    → IsCurrent s.process t f m
    → is_some (s.current t) ≡ true
    → (points_to (s.current t) s.scheduler.address && (not (is_some thread) || points_to thread t))
      ≡ false
    → (s' : System) × (switch_to s t thread ≡ ran s')
      × (s'.scheduler.tasks ≡ s.scheduler.tasks ++ fiber_task f thread ∷ [])
      × ((s'.process.locals t).fiber ≡ some m)
      × (is_running s'.process (fiber_task f thread) ≡ true)
unfolding switch_to
switch_to-tasks s t f m thread c has elsewhere = (
  with_process (with_scheduler s (schedule s.scheduler (fiber_task f thread)))
      (switched s.process t f m),
  rw
      (
        get_this_current s.process t f c.current,
        has,
        elsewhere,
        yield_to_hold-switched s.process t f m c,
      )
      refl,
  schedule-tasks s.scheduler f thread,
  switched-current s.process t f m c,
  ap (λ z. same_state z exec) (switched-state s.process t f m c),
)
