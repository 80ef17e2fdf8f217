-- ===== src/Scheduler/Drain/Full.antt =====
-- The whole of `Scheduler::run` in a thread of the scheduler's own.
use simple_http_server.Base.{
  ℕ, ◌+◌, ◌<◌, ◌≡◌, refl, ap, ◌∙◌, ◌⊎◌, inl, inr, true, false, List, [], ◌∷◌, none, some, arith,
  All, length, map,
}
use simple_http_server.Fiber.{
  exec, term, Process, ran, Ending, same_state, points_to, get_this, new_main, new_fiber, of_fiber,
  target, set_this,
}
use simple_http_server.Fiber.Switch.{CanSwap}
use simple_http_server.Scheduler.{fiber_task, System, is_over, with_process}
use simple_http_server.Scheduler.Run.{run, run_start, run_loop}
use simple_http_server.Scheduler.Drain.{finishing, IsReady}
use simple_http_server.Scheduler.Drain.Pass.{IsDraining}
use simple_http_server.Scheduler.Drain.Stop.{run_loop-IsDrained}

-- An allocated fiber that is over, or that is not running and goes on on its own stack.
pub record IsWaiting (p : Process) (f : ℕ) : Type 0 where
  pub allocated : f < p.next_fiber
  pub able :
      (is_over (p.fiber f).state ≡ true)
      ⊎ ((same_state (p.fiber f).state exec ≡ false) × (target f (p.fiber f).ctx ≡ of_fiber f))

-- The system when the loop begins.
abbrev begun : (ℕ → ℕ → System → System) → ℕ → System → ℕ → System
begun resume configured s t =
    let s' = run_start resume s t in
    with_process s' (new_fiber configured s'.process none 0 false).0

module _ (resume : ℕ → ℕ → System → System) (configured : ℕ) (s : System) (t : ℕ) where
  begun-fiber :
      (f : ℕ)
      → (s.process.locals t).fiber ≡ none
      → points_to s.scheduler.root_thread t ≡ false
      → f < s.process.next_fiber
      → (begun resume configured s t).process.fiber f ≡ s.process.fiber f
  unfolding run_start get_this new_main new_fiber set_this
  begun-fiber f fresh worker h = rw (fresh, run_start, get_this, worker) (ground (arith, h))

  begun-idle :
      (s.process.locals t).fiber ≡ none
      → points_to s.scheduler.root_thread t ≡ false
      → CanSwap
          (begun resume configured s t).process
          t
          (s.process.next_fiber + 1)
          s.process.next_fiber
        × (same_state
              ((begun resume configured s t).process.fiber (s.process.next_fiber + 1)).state
              term
            ≡ false)
  unfolding run_start get_this new_main new_fiber set_this
  begun-idle fresh worker =
      rw (fresh, run_start, get_this, worker)
        (
          record {
            scheduler = ground arith;
            other = λ e. omega (arith, e);
            not_running = ground arith;
            own_stack = ground arith;
          },
          ground arith,
        )

  run_start-next :
      (s.process.locals t).fiber ≡ none
      → points_to s.scheduler.root_thread t ≡ false
      → (run_start resume s t).process.next_fiber ≡ s.process.next_fiber + 1
  unfolding run_start get_this new_main set_this
  run_start-next fresh worker = rw (fresh, run_start, get_this, worker) refl

  run_lem :
      (fuel : ℕ)
      → (s.process.locals t).fiber ≡ none
      → points_to s.scheduler.root_thread t ≡ false
      → run resume fuel configured s t
        ≡ run_loop resume fuel configured
            (begun resume configured s t)
            t
            (s.process.next_fiber + 1)
            none
  unfolding run new_fiber
  run_lem fuel fresh worker =
      ap (λ i. run_loop resume fuel configured (begun resume configured s t) t i none)
        (run_start-next fresh worker)

  begun-scheduler :
      points_to s.scheduler.root_thread t ≡ false
      → (begun resume configured s t).scheduler ≡ s.scheduler
  unfolding run_start
  begun-scheduler worker = rw (worker, run_start) refl

  IsWaiting-IsReady :
      (f : ℕ)
      → (s.process.locals t).fiber ≡ none
      → points_to s.scheduler.root_thread t ≡ false
      → IsWaiting s.process f
      → IsReady
          (begun resume configured s t).process
          t
          s.process.next_fiber
          (s.process.next_fiber + 1)
          f
  IsWaiting-IsReady f fresh worker w =
      let same = begun-fiber f fresh worker w.allocated in
      record {
        not_main = λ e. omega (arith, e, w.allocated);
        not_idle = λ e. omega (arith, e, w.allocated);
        able = elim w.able [
          | inl o ↦ inl (rw (same) o)
          | inr (still, own) ↦ inr (record {
            scheduler = (begun-idle fresh worker).0.scheduler;
            other = λ e. omega (arith, e, w.allocated);
            not_running = rw (same) still;
            own_stack = rw (same) own;
          })
        ];
      }

  All-IsReady :
      (fts : List ℕ)
      → (s.process.locals t).fiber ≡ none
      → points_to s.scheduler.root_thread t ≡ false
      → All (IsWaiting s.process) fts
      → All
          (IsReady
            (begun resume configured s t).process
            t
            s.process.next_fiber
            (s.process.next_fiber + 1))
          fts
  All-IsReady [] fresh worker ws = tt
  All-IsReady (f ∷ fts) fresh worker (w, ws) =
      (IsWaiting-IsReady f fresh worker w, All-IsReady fts fresh worker ws)

-- A thread of the scheduler's own, not the one that made it, begins `run` without a current fiber,
-- when the queue holds fibers for any thread that are over, or are not running and go on on their
-- own stacks, the scheduler is to stop, and no thread is active. If every fiber's function ends, by
-- a return or an exception, and does nothing else, then `run` comes back after one turn of its loop
-- for each fiber and two more: no assertion fails, the queue is empty, the idle fiber is in state
-- TERM, and every fiber that waited is in state TERM or EXCEPT.
pub run-IsDrained :
    (ending : ℕ → Ending) (configured t : ℕ) (fts : List ℕ) (s : System)
    → (s.process.locals t).fiber ≡ none
    → points_to s.scheduler.root_thread t ≡ false
    → s.scheduler.tasks ≡ map (λ f. fiber_task f none) fts
    → All (IsWaiting s.process) fts
    → s.scheduler.active_thread_count ≡ 0
    → s.scheduler.auto_stop ≡ true
    → s.scheduler.is_stopping ≡ true
    → (s' : System) × (run (finishing ending) (length fts + 2) configured s t ≡ some (ran s'))
      × (s'.scheduler.tasks ≡ [])
      × ((s'.process.fiber (s.process.next_fiber + 1)).state ≡ term)
      × All (λ f. is_over (s'.process.fiber f).state ≡ true) fts
run-IsDrained ending configured t fts s fresh worker queue ws active auto_stop is_stopping =
    let b = begun (finishing ending) configured s t in
    let same = begun-scheduler (finishing ending) configured s t worker in
    let (idle, idle_waits) = begun-idle (finishing ending) configured s t fresh worker in
    let d : IsDraining b t s.process.next_fiber (s.process.next_fiber + 1) fts = record {
      tasks = rw (same) queue;
      ready = All-IsReady (finishing ending) configured s t fts fresh worker ws;
      idle = idle;
      idle_waits = idle_waits;
      active = rw (same) active;
      auto_stop = rw (same) auto_stop;
      is_stopping = rw (same) is_stopping;
    } in
    let (s', e, r) =
      run_loop-IsDrained ending configured t s.process.next_fiber (s.process.next_fiber + 1) fts b
        d in
    (
      s',
      run_lem (finishing ending) configured s t (length fts + 2) fresh worker ∙ e,
      r.empty,
      r.idle_ended,
      r.all_over,
    )
