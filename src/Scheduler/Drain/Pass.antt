-- ===== src/Scheduler/Drain/Pass.antt =====
-- The turn of a fiber that waits first in the queue.
use simple_http_server.Base.{
  ℕ, ◌≡◌, refl, sym, ◌≢◌, inl, inr, true, false, not, List, [], ◌∷◌, Option, none, some, arith,
  ◌==◌, ==_iff, ap, ◌∙◌, All, map, is_empty, Bool-cases,
}
use simple_http_server.Fiber.{exec, term, Fiber, Process, ran, Ending, same_state}
use simple_http_server.Fiber.Switch.{CanSwap, IsBack}
use simple_http_server.Fiber.Finish.{ended}
use simple_http_server.Scheduler.{
  fiber_task, System, going_on, Picked, pick, with_process, leave_active, is_over, settle,
}
use simple_http_server.Scheduler.Run.{take, run_task_fiber, run_task, run_picked, run_turn}
use simple_http_server.Scheduler.Drain.{
  finishing, IsReady, IsReady-exec, IsBack-over, CanSwap-rest, IsReady-rest, run_fiber-finishing,
}

settle_over : (s : System) (f : ℕ) → is_over (s.process.fiber f).state ≡ true → settle s f ≡ s
unfolding settle
settle_over s f h = ground (arith, h)

-- Fibers `fts` wait in the queue for any thread, the idle fiber has not ended, and the scheduler
-- is to stop.
pub record IsDraining (s : System) (t m i : ℕ) (fts : List ℕ) : Type 0 where
  pub tasks : s.scheduler.tasks ≡ map (λ f. fiber_task f none) fts
  pub ready : All (IsReady s.process t m i) fts
  pub idle : CanSwap s.process t i m
  pub idle_waits : same_state (s.process.fiber i).state term ≡ false
  pub active : s.scheduler.active_thread_count ≡ 0
  pub auto_stop : s.scheduler.auto_stop ≡ true
  pub is_stopping : s.scheduler.is_stopping ≡ true

-- What is picked from a queue whose first fiber is not running.
first : ℕ → List ℕ → Picked
first f fts = record {
  task = some (fiber_task f none);
  tasks = map (λ g. fiber_task g none) fts;
  tickle_me = not (is_empty (map (λ g. fiber_task g none) fts));
}

pick-first :
    (p : Process) (t f : ℕ) (fts : List ℕ)
    → same_state (p.fiber f).state exec ≡ false
    → pick p t (fiber_task f none ∷ map (λ g. fiber_task g none) fts) false ≡ ran (first f fts)
unfolding pick first
pick-first p t f fts e = rw (e) refl

-- The system behind the turn of a fiber.
behind : System → Process → ℕ → List ℕ → System
behind s q f fts = leave_active (with_process (take s (first f fts)) q)

behind-IsDraining :
    (s : System) (q : Process) (t m i f : ℕ) (fts : List ℕ)
    → IsDraining s t m i (f ∷ fts)
    → All (IsReady q t m i) fts
    → CanSwap q t i m
    → same_state (q.fiber i).state term ≡ false
    → IsDraining (behind s q f fts) t m i fts
unfolding behind take first
behind-IsDraining s q t m i f fts d r c w = record {
  tasks = ground arith;
  ready = r;
  idle = c;
  idle_waits = w;
  active = ground (arith, d.active);
  auto_stop = ground (arith, d.auto_stop);
  is_stopping = ground (arith, d.is_stopping);
}

-- What the turn of a fiber leaves.
pub record Passed (s : System) (t m i f : ℕ) (fts : List ℕ) (s' : System) : Type 0 where
  pub drains : IsDraining s' t m i fts
  pub ended_now : is_over (s'.process.fiber f).state ≡ true
  pub stays_over :
      (g : ℕ)
      → g ≢ m
      → is_over (s.process.fiber g).state ≡ true
      → is_over (s'.process.fiber g).state ≡ true
  pub threads : s'.scheduler.threads ≡ s.scheduler.threads
  pub thread_fiber : (s'.process.locals t).thread_fiber ≡ (s.process.locals t).thread_fiber
  pub rest : (g : ℕ) → g ≢ f → g ≢ m → s'.process.fiber g ≡ s.process.fiber g

All-IsReady-rest :
    (p : Process) (t m i f : ℕ) (x : Fiber) (e : Ending) (q : Process) (fts : List ℕ)
    → IsBack p t f m (ended x e) q
    → All (IsReady p t m i) fts
    → All (IsReady q t m i) fts
All-IsReady-rest p t m i f x e q [] b h = h
All-IsReady-rest p t m i f x e q (g ∷ fts) b (h, hs) =
    (IsReady-rest p t m i f g x e q b h, All-IsReady-rest p t m i f x e q fts b hs)

module _ (ending : ℕ → Ending) (configured t m i : ℕ) (cb_fiber : Option ℕ) where
  run_task-over :
      (s : System) (f : ℕ)
      → is_over (s.process.fiber f).state ≡ true
      → run_task (finishing ending) configured s t cb_fiber (fiber_task f none)
        ≡ ran (going_on (leave_active s) cb_fiber)
  unfolding run_task
  run_task-over s f h = rw (h) refl

  run_task-CanSwap :
      (s : System) (f : ℕ)
      → CanSwap s.process t f m
      → is_over (s.process.fiber f).state ≡ false
      → (q : Process) × (run_task (finishing ending) configured s t cb_fiber (fiber_task f none)
          ≡ ran (going_on (leave_active (with_process s q)) cb_fiber))
        × IsBack s.process t f m (ended (record (s.process.fiber f) { state = exec }) (ending f)) q
  unfolding run_task run_task_fiber
  run_task-CanSwap s f c h =
      let (q, e, b) = run_fiber-finishing ending s t f m c in
      (
        q,
        rw (h, e)
            (ap (λ z. ran (going_on z cb_fiber))
              (settle_over (leave_active (with_process s q)) f
                (IsBack-over s.process t f m _ (ending f) q b))),
        b,
      )

  run_turn-first :
      (s : System) (f : ℕ) (fts : List ℕ)
      → IsDraining s t m i (f ∷ fts)
      → run_turn (finishing ending) configured s t i cb_fiber
        ≡ run_task
            (finishing ending)
            configured
            (take s (first f fts))
            t
            cb_fiber
            (fiber_task f none)
  unfolding run_turn run_picked first
  run_turn-first s f fts d =
      rw (d.tasks, pick-first s.process t f fts (IsReady-exec s.process t m i f d.ready.0)) refl

  pub run_turn-Passed :
      (s : System) (f : ℕ) (fts : List ℕ)
      → IsDraining s t m i (f ∷ fts)
      → (s' : System) × (run_turn (finishing ending) configured s t i cb_fiber
          ≡ ran (going_on s' cb_fiber))
        × Passed s t m i f fts s'
  unfolding behind take
  run_turn-Passed s f fts d = elim (Bool-cases (is_over (s.process.fiber f).state)) [
    | inl o ↦ (
      behind s s.process f fts,
      run_turn-first s f fts d ∙ run_task-over (take s (first f fts)) f o,
      record {
        drains = behind-IsDraining s s.process t m i f fts d d.ready.1 d.idle d.idle_waits;
        ended_now = o;
        stays_over = λ g gm h. h;
        threads = ground arith;
        thread_fiber = refl;
        rest = λ g gf gm. refl;
      },
    )
    | inr n ↦ elim d.ready.0.able [
      | inl o ↦ ground (arith, o, n)
      | inr c ↦
          let (q, e, b) = run_task-CanSwap (take s (first f fts)) f c n in
          let back = d.ready.0.not_idle in
          let fi : i ≢ f = λ k. back (sym k) in
          let im : i ≢ m = λ k. d.idle.other (sym k) in
          (
            behind s q f fts,
            run_turn-first s f fts d ∙ e,
            record {
              drains =
                  behind-IsDraining s q t m i f fts d
                    (All-IsReady-rest s.process t m i f _ (ending f) q fts b d.ready.1)
                    (CanSwap-rest s.process t f m i _ q fi im b d.idle)
                    (ap (λ z. same_state z.state term) (b.rest i fi im) ∙ d.idle_waits);
              ended_now = IsBack-over s.process t f m _ (ending f) q b;
              stays_over = λ g gm h. elim (Bool-cases (g == f)) [
                | inl eq ↦ rw ((==_iff g f).0 eq) (IsBack-over s.process t f m _ (ending f) q b)
                | inr ne ↦ rw (b.rest g (λ k. ground (arith, ne, k)) gm) h
              ];
              threads = ground arith;
              thread_fiber = b.thread_fiber;
              rest = b.rest;
            },
          )
    ]
  ]
