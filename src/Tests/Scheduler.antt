-- ===== src/Tests/Scheduler.antt =====
-- Tests of src/scheduler.
use simple_http_server.Base.{
  All, ℕ, ◌+◌, ◌≡◌, refl, true, false, List, [], ◌∷◌, ◌++◌, Option, none, some, arith, inr, length,
}
use simple_http_server.Base.Bytes.{codes, decimal}
use simple_http_server.Fiber.{ran, ready, threw, yield_to_ready}
use simple_http_server.Fiber.{Process, exec, of_thread, term}
use simple_http_server.Fiber.Switch.{CanSwap}
use simple_http_server.Scheduler.{
  Task, fiber_task, cb_task, Scheduler, System, Picked, pick, going_on,
}
use simple_http_server.Scheduler.Run.{run_task, run}
use simple_http_server.Scheduler.Drain.Full.{run-IsDrained}
use simple_http_server.Scheduler.Queue.{IsPicked, pick-IsPicked, IsTask}
use simple_http_server.Scheduler.Drain.{finishing}
use simple_http_server.Scheduler.Yield.{yielding, run_task-yield_to_ready}
use simple_http_server.Scheduler.Switch.{IsCurrent, switch_to-tasks}
use simple_http_server.Scheduler.Control.{switch_to, new_scheduler, start, stop, join_each}
use simple_http_server.Scheduler.Dump.{dump, dump_ids, dump_rest}
use simple_http_server.Scheduler.Lifecycle.{halted, range}
use simple_http_server.Scheduler.{is_running, is_over, with_scheduler}
use simple_http_server.Scheduler.Control.{destroy_scheduler}
use simple_http_server.Scheduler.Root.{rooted}
use simple_http_server.Scheduler.Root.Made.{schedule_fibers}
use simple_http_server.Scheduler.Root.Caller.{IsFinished, stop-new_scheduler}
use simple_http_server.Tests.Fiber.{process, can_swap_2}

-- A scheduler that is to stop when fiber 1 has run.
abbrev scheduler : Scheduler
scheduler = record {
  address = 5;
  name = codes "test";
  threads = [];
  tasks = fiber_task 1 none ∷ [];
  root_fiber = none;
  thread_ids = [];
  thread_count = 0;
  active_thread_count = 0;
  idle_thread_count = 0;
  is_stopping = true;
  auto_stop = true;
  root_thread = none;
  tickles = 0;
}

abbrev system : System
system = record { process = process; scheduler = scheduler; current = λ t. some 5 }

abbrev queue : List Task
queue = fiber_task 1 (some 4) ∷ cb_task (some 6) none ∷ fiber_task 2 none ∷ []

pick-IsPicked_example :
    (k : Picked) × (pick process 1 queue false ≡ ran k) × IsPicked process 1 queue false k
unfolding IsTask
pick-IsPicked_example = pick-IsPicked process 1 queue false (refl, (refl, (refl, tt)))

-- Thread 1 takes the function, the second task, since the first is for thread 4.
picked :
    pick process 1 queue false
    ≡ ran (record {
      task = some (cb_task (some 6) none);
      tasks = fiber_task 1 (some 4) ∷ fiber_task 2 none ∷ [];
      tickle_me = true;
    })
unfolding pick
picked = refl

run_task-yield_to_ready_example :
    (s : System) × (run_task (yielding yield_to_ready) 131072 system 1 none (fiber_task 2 none)
      ≡ ran (going_on s none))
    × (s.scheduler.tasks ≡ scheduler.tasks ++ fiber_task 2 none ∷ [])
    × ((s.process.fiber 2).state ≡ ready)
    × CanSwap s.process 1 2 0
run_task-yield_to_ready_example =
    run_task-yield_to_ready 131072 system 1 2 0 none none can_swap_2 refl

-- Fiber 1 runs in thread 1, and the scheduler's fiber is fiber 0.
abbrev inside : Process
inside = record process {
  fiber = λ f. record (process.fiber f) { state = exec };
  locals = λ t. record (process.locals t) { fiber = some 1 };
}

inside-IsCurrent : IsCurrent inside 1 1 0
inside-IsCurrent = record { current = refl; running = refl; scheduler = refl; other = ground arith }

abbrev inside_system : System
inside_system = record system { process = inside }

switch_to-tasks_example :
    (s : System) × (switch_to inside_system 1 (some 4) ≡ ran s)
    × (s.scheduler.tasks ≡ scheduler.tasks ++ fiber_task 1 (some 4) ∷ [])
    × ((s.process.locals 1).fiber ≡ some 0)
    × (is_running s.process (fiber_task 1 (some 4)) ≡ true)
switch_to-tasks_example = switch_to-tasks inside_system 1 1 0 (some 4) inside-IsCurrent refl refl

-- Two threads, of which each has its end counted.
abbrev joined : ℕ → System → System
joined i s = record s { scheduler = record s.scheduler { tickles = 10 + s.scheduler.tickles } }

abbrev names_of : ℕ → Option ℕ
names_of i = some (i + 40)

-- The second thread is joined last.
both_joined :
    (join_each (finishing (λ f. threw)) joined (range 0 2) (record {
      process = process;
      scheduler = halted scheduler 2;
      current = λ t. none;
    })).scheduler.tickles
    ≡ 22
unfolding join_each range
both_joined = refl

two_ids :
    dump (record scheduler { thread_ids = some 7 ∷ none ∷ [] }) []
    ≡ codes "[Scheduler name=test size=0 active_count=0 idle_count=0 stopping=1 ]\n    7, -1"
unfolding dump dump_ids dump_rest decimal
two_ids = refl

-- A new thread 4, and two fibers that wait.
abbrev fresh : System
fresh = record {
  process = record process {
    locals = λ t. record {
      fiber = none;
      thread_fiber = none;
      scheduler_fiber = none;
      running = of_thread t;
    };
  };
  scheduler = record scheduler { tasks = fiber_task 2 none ∷ fiber_task 1 none ∷ [] };
  current = λ t. none;
}

abbrev two_fibers : List ℕ
two_fibers = 2 ∷ 1 ∷ []

run-IsDrained_example :
    (s' : System) × (run (finishing (λ f. threw)) (length two_fibers + 2) 131072 fresh 4
      ≡ some (ran s'))
    × (s'.scheduler.tasks ≡ [])
    × ((s'.process.fiber 4).state ≡ term)
    × All (λ f. is_over (s'.process.fiber f).state ≡ true) two_fibers
run-IsDrained_example =
    run-IsDrained (λ f. threw) 131072 4 two_fibers fresh refl refl refl
      (
        record { allocated = omega arith; able = inr (refl, refl) },
        (record { allocated = omega arith; able = inr (refl, refl) }, tt),
      )
      refl refl refl

stop-new_scheduler_example :
    (s : System) × (new_scheduler 131072 9 fresh.process (λ t. none) 4 5 1 true (codes "test")
      ≡ ran s)
    × (c : Scheduler) × (start names_of s.scheduler ≡ ran c)
    × (s' : System) × (stop
          (rooted (λ f. threw) (length two_fibers + 2) 131072)
          joined
          (with_scheduler s (schedule_fibers c two_fibers))
          4
        ≡ ran s')
    × (d : System) × (destroy_scheduler s' 4 ≡ ran d)
    × IsFinished fresh.process 4 4 3 two_fibers s'
stop-new_scheduler_example =
    stop-new_scheduler (λ f. threw) joined names_of 131072 9 fresh.process (λ t. none) 4 5
      (codes "test") two_fibers refl refl
      (
        record { allocated = omega arith; able = inr (refl, refl) },
        (record { allocated = omega arith; able = inr (refl, refl) }, tt),
      )
