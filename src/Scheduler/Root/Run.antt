-- ===== src/Scheduler/Root/Run.antt =====
-- `Scheduler::run` as the root fiber's function.
use simple_http_server.Base.{
  ℕ, ◌+◌, ◌<◌, ◌≡◌, refl, sym, ap, ◌∙◌, ◌≢◌, inl, inr, true, false, List, [], ◌∷◌, none, some,
  arith, All, length, map, update,
}
use simple_http_server.Fiber.{
  term, Process, ran, Ending, same_state, points_to, new_fiber, returned, caller_main_func_end,
  target,
}
use simple_http_server.Fiber.Switch.{CanSwap}
use simple_http_server.Scheduler.{fiber_task, System, is_over, stopping, with_process}
use simple_http_server.Scheduler.Run.{run, run_start, run_loop}
use simple_http_server.Scheduler.Drain.{finishing, IsReady}
use simple_http_server.Scheduler.Drain.Pass.{IsDraining}
use simple_http_server.Scheduler.Drain.Stop.{run_loop-IsDrained}
use simple_http_server.Scheduler.Drain.Full.{IsWaiting}
use simple_http_server.Scheduler.Root.{
  root_run, HasRoot, IsReturned, caller_main_func_end-IsReturned,
}

-- The system when the loop begins in the root thread.
abbrev begun : ℕ → System → ℕ → System
begun configured s t = record s {
  process = (new_fiber configured s.process none 0 false).0;
  current = update s.current t (some s.scheduler.address);
}

module _ (resume : ℕ → ℕ → System → System) (configured : ℕ) (s : System) (t : ℕ) where
  run_root_thread :
      (fuel : ℕ)
      → points_to s.scheduler.root_thread t ≡ true
      → run resume fuel configured s t
        ≡ run_loop resume fuel configured (begun configured s t) t s.process.next_fiber none
  unfolding run run_start new_fiber
  run_root_thread fuel here = rw (here, run_start) refl

module _ (configured : ℕ) (s : System) (t r m : ℕ) (h : HasRoot s.process t r m) where
  begun-idle :
      CanSwap (begun configured s t).process t s.process.next_fiber r
      × (same_state ((begun configured s t).process.fiber s.process.next_fiber).state term ≡ false)
  unfolding new_fiber
  begun-idle = (
    record {
      scheduler = ground (arith, h.scheduler_fiber);
      other = λ e. omega (arith, e, h.root_allocated);
      not_running = ground arith;
      own_stack = ground arith;
    },
    ground arith,
  )

  begun-fiber :
      (f : ℕ)
      → f < s.process.next_fiber
      → (begun configured s t).process.fiber f ≡ s.process.fiber f
  unfolding new_fiber
  begun-fiber f l = ground (arith, l)

  begun-thread_fiber : ((begun configured s t).process.locals t).thread_fiber ≡ some m
  unfolding new_fiber
  begun-thread_fiber = h.thread_fiber

  IsWaiting-IsReady :
      (f : ℕ)
      → f ≢ r
      → IsWaiting s.process f
      → IsReady (begun configured s t).process t r s.process.next_fiber f
  IsWaiting-IsReady f fr w =
      let same = begun-fiber f w.allocated in
      record {
        not_main = fr;
        not_idle = λ e. omega (arith, e, w.allocated);
        able = elim w.able [
          | inl o ↦ inl (rw (same) o)
          | inr (still, own) ↦ inr (record {
            scheduler = begun-idle.0.scheduler;
            other = λ e. fr (sym e);
            not_running = rw (same) still;
            own_stack = rw (same) own;
          })
        ];
      }

  All-IsReady :
      (fts : List ℕ)
      → All (λ f. (f ≢ r) × IsWaiting s.process f) fts
      → All (IsReady (begun configured s t).process t r s.process.next_fiber) fts
  All-IsReady [] ws = tt
  All-IsReady (f ∷ fts) ((fr, w), ws) = (IsWaiting-IsReady f fr w, All-IsReady fts ws)

-- What the root fiber leaves when it has run the queue empty and gone back to fiber `m`.
pub record HasDrained (s : System) (t r m : ℕ) (fts : List ℕ) (s' : System) : Type 0 where
  pub empty : s'.scheduler.tasks ≡ []
  pub stopping_now : stopping s'.scheduler ≡ true
  pub threads : s'.scheduler.threads ≡ s.scheduler.threads
  pub all_over : All (λ f. is_over (s'.process.fiber f).state ≡ true) fts
  pub root_ended : (s'.process.fiber r).state ≡ term
  pub current : (s'.process.locals t).fiber ≡ some m
  pub running : (s'.process.locals t).running ≡ target m (s.process.fiber m).ctx

-- The queue may be drained by the root fiber.
pub record CanDrain (s : System) (t r m : ℕ) (fts : List ℕ) : Type 0 where
  pub has_root : HasRoot s.process t r m
  pub root_thread : points_to s.scheduler.root_thread t ≡ true
  pub tasks : s.scheduler.tasks ≡ map (λ f. fiber_task f none) fts
  pub waiting : All (λ f. (f ≢ r) × IsWaiting s.process f) fts
  pub not_main : All (λ f. m ≢ f) fts
  pub active : s.scheduler.active_thread_count ≡ 0
  pub auto_stop : s.scheduler.auto_stop ≡ true
  pub is_stopping : s.scheduler.is_stopping ≡ true

All-over-IsReturned :
    (p q : Process) (t r m : ℕ) (fts : List ℕ) (s : System)
    → IsReturned p t r m q
    → All (λ f. (f ≢ r) × IsWaiting s.process f) fts
    → All (λ f. is_over (p.fiber f).state ≡ true) fts
    → All (λ f. is_over (q.fiber f).state ≡ true) fts
All-over-IsReturned p q t r m [] s b ws os = tt
All-over-IsReturned p q t r m (f ∷ fts) s b (w, ws) (o, os) =
    (rw (b.rest f w.0) o, All-over-IsReturned p q t r m fts s b ws os)

root_run_lem :
    (ending : ℕ → Ending) (fuel configured t r : ℕ) (s s1 : System) (q : Process)
    → run (finishing ending) fuel configured s t ≡ some (ran s1)
    → caller_main_func_end s1.process t r returned ≡ ran q
    → root_run ending fuel configured t r s ≡ some (ran (with_process s1 q))
unfolding root_run
root_run_lem ending fuel configured t r s s1 q e e' = rw (root_run, e, e') refl

-- The root fiber drains the queue.
pub root_run-HasDrained :
    (ending : ℕ → Ending) (configured t r m : ℕ) (fts : List ℕ) (s : System)
    → CanDrain s t r m fts
    → (s' : System) × (root_run ending (length fts + 2) configured t r s ≡ some (ran s'))
      × HasDrained s t r m fts s'
root_run-HasDrained ending configured t r m fts s c =
    let h = c.has_root in
    let (idle, idle_waits) = begun-idle configured s t r m h in
    let d : IsDraining (begun configured s t) t r s.process.next_fiber fts = record {
      tasks = c.tasks;
      ready = All-IsReady configured s t r m h fts c.waiting;
      idle = idle;
      idle_waits = idle_waits;
      active = c.active;
      auto_stop = c.auto_stop;
      is_stopping = c.is_stopping;
    } in
    let (s1, e, d1) =
      run_loop-IsDrained ending configured t r s.process.next_fiber fts (begun configured s t) d in
    let own = d1.thread_fiber ∙ begun-thread_fiber configured s t r m h in
    let (q, e', b) = caller_main_func_end-IsReturned s1.process t r m own h.other in
    let not_idle : m ≢ s.process.next_fiber = λ k. omega (arith, k, h.main_allocated) in
    let same =
      d1.rest m c.not_main h.other not_idle ∙ begun-fiber configured s t r m h m h.main_allocated in
    (
      with_process s1 q,
      root_run_lem ending (length fts + 2) configured t r s s1 q
          (run_root_thread (finishing ending) configured s t (length fts + 2) c.root_thread ∙ e) e',
      record {
        empty = d1.empty;
        stopping_now = d1.stopping_now;
        threads = d1.threads;
        all_over = All-over-IsReturned s1.process q t r m fts s b c.waiting d1.all_over;
        root_ended = b.root_ended;
        current = b.current;
        running = b.running ∙ ap (λ x. target m x.ctx) same;
      },
    )
