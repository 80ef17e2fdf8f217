-- ===== src/Scheduler/Root/Made.antt =====
-- A scheduler that uses its caller, made and started, with fibers in its queue.
use simple_http_server.Base.{
  ℕ, ◌+◌, ◌<◌, ◌≡◌, refl, ap, ◌∙◌, ◌≢◌, true, false, List, [], ◌∷◌, ◌++◌, Option, none, some, arith,
  All, map, append-nil, append_assoc, update, is_empty, Bool-cases, inl, inr,
}
use simple_http_server.Base.Bytes.{Bytes}
use simple_http_server.Fiber.{
  init, Process, ran, get_this, new_main, new_fiber, set_this, store_locals,
}
use simple_http_server.Scheduler.{fiber_task, Scheduler, System, with_scheduler, schedule}
use simple_http_server.Scheduler.Control.{blank, use_thread, new_scheduler}
use simple_http_server.Scheduler.Drain.Full.{IsWaiting}
use simple_http_server.Scheduler.Root.{HasRoot}
use simple_http_server.Scheduler.Root.Stop.{CanStop}

-- Calls of `schedule`, each for a fiber.
unfoldable pub schedule_fibers : Scheduler → List ℕ → Scheduler
schedule_fibers c [] = c
schedule_fibers c (f ∷ fs) = schedule_fibers (schedule c (fiber_task f none)) fs

schedule-fiber_task :
    (c : Scheduler) (f : ℕ)
    → (n : ℕ) × (schedule c (fiber_task f none)
        ≡ record c { tasks = c.tasks ++ fiber_task f none ∷ []; tickles = n })
unfolding schedule
schedule-fiber_task c f = elim (Bool-cases (is_empty c.tasks)) [
  | inl e ↦ (c.tickles + 1, rw (e) refl)
  | inr e ↦ (c.tickles, rw (e) refl)
]

schedule_fibers_lem :
    (c : Scheduler) (fs : List ℕ)
    → (n : ℕ) × (schedule_fibers c fs
        ≡ record c { tasks = c.tasks ++ map (λ f. fiber_task f none) fs; tickles = n })
unfolding schedule_fibers
schedule_fibers_lem c [] = (c.tickles, rw (append-nil c.tasks) refl)
schedule_fibers_lem c (f ∷ fs) =
    let (k, e) = schedule-fiber_task c f in
    let (n, e') =
      schedule_fibers_lem (record c { tasks = c.tasks ++ fiber_task f none ∷ []; tickles = k })
        fs in
    (
      n,
      rw (e) (
          e'
          ∙ rw (append_assoc c.tasks (fiber_task f none ∷ []) (map (λ g. fiber_task g none) fs))
              refl),
    )

module _ (configured run : ℕ) (p : Process) (current : ℕ → Option ℕ) (t address : ℕ)
    (name : Bytes) where
  -- The process and the scheduler behind the constructor, in a thread without a fiber.
  abbrev pub made : System
  made =
      let (p', m) = get_this p t in
      let (p'', r) = new_fiber configured p' (some run) 0 true in
      record {
        process = store_locals p'' t (record (p''.locals t) { scheduler_fiber = some r });
        scheduler = record (blank address name 1) {
          root_fiber = some r;
          root_thread = some t;
          thread_ids = some t ∷ [];
          thread_count = 0;
        };
        current = update current t (some address);
      }

  pub new_scheduler-made :
      current t ≡ none → new_scheduler configured run p current t address 1 true name ≡ ran made
  unfolding new_scheduler use_thread
  new_scheduler-made e = rw (e) refl

  -- The scheduler, started, with the fibers in its queue.
  abbrev pub filled : List ℕ → System
  filled fs =
      let s = made in
      with_scheduler s (schedule_fibers (record s.scheduler { is_stopping = false }) fs)

  pub filled-threads : (fs : List ℕ) → (filled fs).scheduler.threads ≡ []
  filled-threads fs =
      let (n, q) = schedule_fibers_lem (record made.scheduler { is_stopping = false }) fs in
      ap (λ c. c.threads) q

  module _ (fresh : (p.locals t).fiber ≡ none) where
    made-HasRoot : HasRoot made.process t (p.next_fiber + 1) p.next_fiber
    unfolding get_this new_main new_fiber set_this
    made-HasRoot =
        rw (fresh, get_this)
          (record {
            thread_fiber = ground arith;
            scheduler_fiber = ground arith;
            other = λ k. omega (arith, k);
            root_allocated = omega arith;
            main_allocated = omega arith;
          })

    pub made-locals : (made.process.locals t).running ≡ (p.locals t).running
    unfolding get_this new_main new_fiber set_this
    made-locals = rw (fresh, get_this) (ground arith)

    made-fiber : (f : ℕ) → f < p.next_fiber → made.process.fiber f ≡ p.fiber f
    unfolding get_this new_main new_fiber set_this
    made-fiber f l = rw (fresh, get_this) (ground (arith, l))

    pub made-root-state : (made.process.fiber (p.next_fiber + 1)).state ≡ init
    unfolding get_this new_main new_fiber set_this
    made-root-state = rw (fresh, get_this) (ground arith)

    pub made-current : (made.process.locals t).fiber ≡ some p.next_fiber
    unfolding get_this new_main new_fiber set_this
    made-current = rw (fresh, get_this) (ground arith)

    pub made-root : made.scheduler.root_fiber ≡ some (p.next_fiber + 1)
    unfolding get_this new_main new_fiber set_this
    made-root = rw (fresh, get_this) refl

    made-waiting :
        (fs : List ℕ)
        → All (IsWaiting p) fs
        → All (λ f. (f ≢ p.next_fiber + 1) × (p.next_fiber ≢ f) × IsWaiting made.process f) fs
    made-waiting [] ws = tt
    made-waiting (f ∷ fs) (w, ws) =
        let same = made-fiber f w.allocated in
        let h = made-HasRoot in
        (
          (
            λ k. omega (arith, k, w.allocated),
            λ k. omega (arith, k, w.allocated),
            record {
              allocated = omega (arith, w.allocated, h.main_allocated);
              able = rw (same) w.able;
            },
          ),
          made-waiting fs ws,
        )

    pub filled-CanStop :
        (fs : List ℕ)
        → All (IsWaiting p) fs
        → CanStop (filled fs) t (p.next_fiber + 1) p.next_fiber fs
    filled-CanStop fs ws =
        let s = made in
        let (n, q) = schedule_fibers_lem (record s.scheduler { is_stopping = false }) fs in
        rw (q) (record {
          has_root = made-HasRoot;
          root_fiber = made-root;
          root_thread = refl;
          here = ground arith;
          tasks = refl;
          waiting = made-waiting fs ws;
          active = refl;
        })
