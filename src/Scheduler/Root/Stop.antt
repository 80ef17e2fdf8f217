-- ===== src/Scheduler/Root/Stop.antt =====
-- `stop` of a scheduler that uses its caller.
use simple_http_server.Base.{
  ℕ, ◌+◌, ◌≡◌, refl, sym, ap, ◌∙◌, ◌≢◌, inl, inr, true, false, List, [], ◌∷◌, none, some, arith,
  All, length, map, Bool-cases,
}
use simple_http_server.Fiber.{term, Process, ran, and_then, Ending, points_to, target, call}
use simple_http_server.Scheduler.{
  Task, fiber_task, Scheduler, System, is_over, stopping, with_process, with_scheduler,
}
use simple_http_server.Scheduler.Control.{has_idle_root, run_root, join_threads, stop_running, stop}
use simple_http_server.Scheduler.Drain.Full.{IsWaiting}
use simple_http_server.Scheduler.Lifecycle.{tickle_times_lem}
use simple_http_server.Scheduler.Root.{
  root_run, rooted, system_of, HasRoot, IsCalled, call-IsCalled,
}
use simple_http_server.Scheduler.Root.Run.{CanDrain, root_run-HasDrained}

-- A scheduler that uses thread `t`, where its root fiber is `r`, may be stopped there, in the main
-- fiber `m`, when fibers `fts` wait in the queue and no thread is active.
pub record CanStop (s : System) (t r m : ℕ) (fts : List ℕ) : Type 0 where
  pub has_root : HasRoot s.process t r m
  pub root_fiber : s.scheduler.root_fiber ≡ some r
  pub root_thread : s.scheduler.root_thread ≡ some t
  pub here : points_to (s.current t) s.scheduler.address ≡ true
  pub tasks : s.scheduler.tasks ≡ map (λ f. fiber_task f none) fts
  pub waiting : All (λ f. (f ≢ r) × (m ≢ f) × IsWaiting s.process f) fts
  pub active : s.scheduler.active_thread_count ≡ 0

-- The scheduler when the root fiber is called.
abbrev marked : Scheduler → Scheduler
marked c = record c {
  auto_stop = true;
  is_stopping = true;
  tickles = c.tickles + c.thread_count + 1;
}

stopping_full :
    (c : Scheduler) (ft : Task) (fts : List Task) → c.tasks ≡ ft ∷ fts → stopping c ≡ false
unfolding stopping
stopping_full c ft fts e = ground (arith, e)

abbrev to_stop : System → System
to_stop s = with_scheduler s (record s.scheduler { auto_stop = true; is_stopping = true })

module _ (resume : ℕ → ℕ → System → System) (join : ℕ → System → System) where
  stop_full :
      (s : System) (t : ℕ) (ft : Task) (fts : List Task)
      → s.scheduler.tasks ≡ ft ∷ fts
      → stop resume join s t ≡ stop_running resume join (to_stop s) t
  unfolding stop
  stop_full s t ft fts e =
      elim (Bool-cases
        (has_idle_root (with_scheduler s (record s.scheduler { auto_stop = true })))) [
          | inl i ↦ rw (i, stopping_full (to_stop s).scheduler ft fts e) refl
          | inr n ↦ rw (n) (unfold stop_running in refl)
        ]

  stop_running_lem :
      (s : System) (t r : ℕ)
      → s.scheduler.root_fiber ≡ some r
      → s.scheduler.root_thread ≡ some t
      → points_to (s.current t) s.scheduler.address ≡ true
      → stop_running resume join (to_stop s) t
        ≡ and_then
            (run_root resume join (with_scheduler s (marked s.scheduler)) t)
            (λ q. ran (join_threads resume join q))
  unfolding stop_running
  stop_running_lem s t r rf rt here =
      rw (tickle_times_lem s.scheduler.thread_count (to_stop s).scheduler, rf, rt, here) refl

  run_root_full :
      (s : System) (t r : ℕ) (ft : Task) (fts : List Task) (q : Process)
      → s.scheduler.root_fiber ≡ some r
      → s.scheduler.tasks ≡ ft ∷ fts
      → call s.process t r ≡ ran q
      → run_root resume join s t ≡ ran (resume t r (with_process s q))
  unfolding run_root
  run_root_full s t r ft fts q rf e c = rw (rf, stopping_full s.scheduler ft fts e, c) refl

IsWaiting-IsCalled :
    (p q : Process) (t r m : ℕ) (fts : List ℕ)
    → IsCalled p t r m q
    → All (λ f. (f ≢ r) × (m ≢ f) × IsWaiting p f) fts
    → All (λ f. (f ≢ r) × IsWaiting q f) fts
IsWaiting-IsCalled p q t r m [] c ws = tt
IsWaiting-IsCalled p q t r m (f ∷ fts) c ((fr, fm, w), ws) =
    let same = c.rest f fr (λ e. fm (sym e)) in
    (
      (
        fr,
        record {
          allocated = rw (c.next_fiber) w.allocated;
          able = elim w.able [
            | inl o ↦ inl (rw (same) o)
            | inr (still, own) ↦ inr (rw (same) still, rw (same) own)
          ];
        },
      ),
      IsWaiting-IsCalled p q t r m fts c ws,
    )

not_main_each :
    (p : Process) (r m : ℕ) (fts : List ℕ)
    → All (λ f. (f ≢ r) × (m ≢ f) × IsWaiting p f) fts
    → All (λ f. m ≢ f) fts
not_main_each p r m [] ws = tt
not_main_each p r m (f ∷ fts) (w, ws) = (w.1, not_main_each p r m fts ws)

CanDrain-IsCalled :
    (s : System) (t r m : ℕ) (fts : List ℕ) (q : Process)
    → CanStop s t r m fts
    → IsCalled s.process t r m q
    → CanDrain (record s { process = q; scheduler = marked s.scheduler }) t r m fts
CanDrain-IsCalled s t r m fts q c k = record {
  has_root = k.has_root;
  root_thread = rw (c.root_thread) (ground arith);
  tasks = c.tasks;
  waiting = IsWaiting-IsCalled s.process q t r m fts k c.waiting;
  not_main = not_main_each s.process r m fts c.waiting;
  active = c.active;
  auto_stop = refl;
  is_stopping = refl;
}

rooted_lem :
    (ending : ℕ → Ending) (fuel configured t r : ℕ) (s s' : System)
    → root_run ending fuel configured t r s ≡ some (ran s')
    → rooted ending fuel configured t r s ≡ s'
unfolding rooted system_of
rooted_lem ending fuel configured t r s s' e = rw (e) refl

-- What `stop` comes to before it joins the threads.
pub record IsStopped (s : System) (t r m : ℕ) (fts : List ℕ) (s' : System) : Type 0 where
  pub empty : s'.scheduler.tasks ≡ []
  pub stopping_now : stopping s'.scheduler ≡ true
  pub threads : s'.scheduler.threads ≡ s.scheduler.threads
  pub all_over : All (λ f. is_over (s'.process.fiber f).state ≡ true) fts
  pub root_ended : (s'.process.fiber r).state ≡ term
  pub current : (s'.process.locals t).fiber ≡ some m
  pub running : (s'.process.locals t).running ≡ (s.process.locals t).running

-- A scheduler uses thread `t`, `stop` is called there in the main fiber when at least one fiber
-- waits in the queue, the fibers that wait are for any thread and are over, or are not running and
-- go on on their own stacks, and no thread is active. If every fiber's function ends, by a return
-- or an exception, and does nothing else, then no assertion fails: `stop` calls the root fiber once,
-- the loop of `run` in it ends after one turn for each fiber and two more, and the root fiber goes
-- back. Then the queue is empty, `stopping` holds, the fibers that waited are in state TERM or
-- EXCEPT and the root fiber is in state TERM, the thread runs its main fiber on the stack that it
-- was on, and what is left to `stop` is to join the threads.
pub stop-IsStopped :
    (ending : ℕ → Ending) (join : ℕ → System → System) (configured t r m f : ℕ) (fts : List ℕ)
    (s : System)
    → CanStop s t r m (f ∷ fts)
    → let fuel = length (f ∷ fts) + 2 in
      (q : Process) × (call s.process t r ≡ ran q)
      × (s' : System) × (root_run ending fuel configured t r
            (record s { process = q; scheduler = marked s.scheduler })
          ≡ some (ran s'))
      × (stop (rooted ending fuel configured) join s t
          ≡ ran (join_threads (rooted ending fuel configured) join s'))
      × IsStopped s t r m (f ∷ fts) s'
stop-IsStopped ending join configured t r m f fts s c =
    let fuel = length (f ∷ fts) + 2 in
    let resume = rooted ending fuel configured in
    let (q, eq, k) = call-IsCalled s.process t r m c.has_root in
    let called = record s { process = q; scheduler = marked s.scheduler } in
    let (s', e, d) =
      root_run-HasDrained ending configured t r m (f ∷ fts) called
        (CanDrain-IsCalled s t r m (f ∷ fts) q c k) in
    let ft = fiber_task f none in
    let rest = map (λ g. fiber_task g none) fts in
    let ran_root =
      run_root_full resume join (with_scheduler s (marked s.scheduler)) t r ft rest q c.root_fiber
        c.tasks eq
      ∙ ap ran (rooted_lem ending fuel configured t r called s' e) in
    (
      q,
      eq,
      s',
      e,
      stop_full resume join s t ft rest c.tasks
          ∙ (stop_running_lem resume join s t r c.root_fiber c.root_thread c.here
              ∙ ap (λ x. and_then x (λ z. ran (join_threads resume join z))) ran_root),
      record {
        empty = d.empty;
        stopping_now = d.stopping_now;
        threads = d.threads;
        all_over = d.all_over;
        root_ended = d.root_ended;
        current = d.current;
        running = d.running ∙ ap (target m) k.main;
      },
    )
