-- ===== src/Scheduler/Drain/Stop.antt =====
-- The end of the loop, when the queue is empty.
use simple_http_server.Base.{
  ℕ, suc, ◌+◌, ◌≡◌, refl, sym, ◌≢◌, true, false, List, [], ◌∷◌, Option, none, some, arith, ap, ◌∙◌,
  All, length,
}
use simple_http_server.Fiber.{
  exec, term, Process, ran, and_then, Ending, returned, main_func_end, same_state,
}
use simple_http_server.Fiber.Switch.{CanSwap, IsBack, entered, swap_in_switches}
use simple_http_server.Fiber.Finish.{ended, swap_in-main_func_end}
use simple_http_server.Scheduler.{
  System, going_on, increment, decrement, pick, is_over, stopping, idle, run_idle,
}
use simple_http_server.Scheduler.Run.{take, run_picked, run_turn, run_loop}
use simple_http_server.Scheduler.Drain.{finishing, IsBack-over}
use simple_http_server.Scheduler.Drain.Pass.{IsDraining, run_turn-Passed}

-- What the idle fiber's turn leaves.
idled : System → Process → System
idled s q = record s {
  process = q;
  scheduler = record s.scheduler {
    idle_thread_count = decrement (increment s.scheduler.idle_thread_count);
  };
}

run_idle-stopping :
    (s : System) (t m i : ℕ) (cb_fiber : Option ℕ)
    → stopping s.scheduler ≡ true
    → CanSwap s.process t i m
    → same_state (s.process.fiber i).state term ≡ false
    → (q : Process) × (run_idle s t i cb_fiber ≡ ran (going_on (idled s q) cb_fiber))
      × IsBack s.process t i m (ended (record (s.process.fiber i) { state = exec }) returned) q
unfolding run_idle idle idled stopping
run_idle-stopping s t m i cb_fiber h c w =
    let (q, e, b) = swap_in-main_func_end s.process t i m returned c in
    let e' : main_func_end (entered s.process t i m) t i returned ≡ ran q =
      sym (
        ap (λ r. and_then r (λ p. main_func_end p t i returned))
          (swap_in_switches s.process t i m c))
      ∙ e in
    (
      q,
      rw (w, swap_in_switches s.process t i m c, h, e', IsBack-over s.process t i m _ returned q b)
          refl,
      b,
    )

-- What a thread that finds nothing takes.
emptied : System → System
emptied s = take s (record { task = none; tasks = []; tickle_me = false })

module _ (resume : ℕ → ℕ → System → System) (configured t m i : ℕ) (cb_fiber : Option ℕ) where
  run_turn_empty :
      (s : System)
      → s.scheduler.tasks ≡ []
      → run_turn resume configured s t i cb_fiber ≡ run_idle (emptied s) t i cb_fiber
  unfolding run_turn run_picked pick emptied
  run_turn_empty s e = rw (e) refl

  emptied-stopping : (s : System) → IsDraining s t m i [] → stopping (emptied s).scheduler ≡ true
  unfolding emptied take stopping
  emptied-stopping s d = rw (d.auto_stop, d.is_stopping, d.active) refl

  run_idle-over :
      (s : System)
      → same_state (s.process.fiber i).state term ≡ true
      → run_idle s t i cb_fiber ≡ ran (record { system = s; cb_fiber = cb_fiber; over = true })
  unfolding run_idle
  run_idle-over s e = rw (e) refl

  pub run_loop-going_on :
      (fuel : ℕ) (s s' : System)
      → run_turn resume configured s t i cb_fiber ≡ ran (going_on s' cb_fiber)
      → run_loop resume (suc fuel) configured s t i cb_fiber
        ≡ run_loop resume fuel configured s' t i cb_fiber
  unfolding run_loop
  run_loop-going_on fuel s s' e = rw (run_loop, e) refl

  run_loop-over :
      (fuel : ℕ) (s s' : System)
      → run_turn resume configured s t i cb_fiber
        ≡ ran (record { system = s'; cb_fiber = cb_fiber; over = true })
      → run_loop resume (suc fuel) configured s t i cb_fiber ≡ some (ran s')
  unfolding run_loop
  run_loop-over fuel s s' e = rw (run_loop, e) refl

  -- With an empty queue the idle fiber ends in one turn, and the loop in the next.
  pub run_loop_stops :
      (s : System)
      → IsDraining s t m i []
      → (s' : System) × (run_loop resume 2 configured s t i cb_fiber ≡ some (ran s'))
        × (s'.scheduler.tasks ≡ [])
        × ((s'.process.fiber i).state ≡ term)
        × ((g : ℕ)
            → g ≢ m
            → g ≢ i
            → is_over (s.process.fiber g).state ≡ true
            → is_over (s'.process.fiber g).state ≡ true)
        × (stopping s'.scheduler ≡ true)
        × (s'.scheduler.threads ≡ s.scheduler.threads)
        × ((s'.process.locals t).thread_fiber ≡ (s.process.locals t).thread_fiber)
        × ((g : ℕ) → g ≢ m → g ≢ i → s'.process.fiber g ≡ s.process.fiber g)
  unfolding emptied take idled ended stopping
  run_loop_stops s d =
      let (q, e, b) =
        run_idle-stopping (emptied s) t m i cb_fiber (emptied-stopping s d) d.idle d.idle_waits in
      let s1 = idled (emptied s) q in
      let st : (q.fiber i).state ≡ term = ap (λ z. z.state) b.fiber in
      (
        emptied s1,
        run_loop-going_on 1 s s1 (run_turn_empty s d.tasks ∙ e)
            ∙ run_loop-over 0 s1 (emptied s1) (
                run_turn_empty s1 refl
                ∙ run_idle-over (emptied s1) (ap (λ z. same_state z term) st)),
        refl,
        st,
        λ g gm gi h. rw (b.rest g gi gm) h,
        rw (d.auto_stop, d.is_stopping, d.active) refl,
        ground arith,
        b.thread_fiber,
        λ g gm gi. b.rest g gi gm,
      )

-- The end of a run of fibers `fts` from `s`.
pub record IsDrained (s : System) (t m i : ℕ) (fts : List ℕ) (s' : System) : Type 0 where
  pub empty : s'.scheduler.tasks ≡ []
  pub idle_ended : (s'.process.fiber i).state ≡ term
  pub all_over : All (λ f. is_over (s'.process.fiber f).state ≡ true) fts
  pub stays_over :
      (g : ℕ)
      → g ≢ m
      → g ≢ i
      → is_over (s.process.fiber g).state ≡ true
      → is_over (s'.process.fiber g).state ≡ true
  pub stopping_now : stopping s'.scheduler ≡ true
  pub threads : s'.scheduler.threads ≡ s.scheduler.threads
  pub thread_fiber : (s'.process.locals t).thread_fiber ≡ (s.process.locals t).thread_fiber
  pub rest : (g : ℕ) → All (λ f. g ≢ f) fts → g ≢ m → g ≢ i → s'.process.fiber g ≡ s.process.fiber g

-- The queue holds fibers that are not running, for any thread; the scheduler is to stop, no
-- thread is active, and the idle fiber waits. If every fiber's function ends, by a return or an
-- exception, and does nothing else, then the loop of `run` ends after one turn for each fiber
-- and two more: no assertion fails, the queue is empty, the idle fiber is in state TERM, and every
-- fiber that waited, or was over before, is in state TERM or EXCEPT.
pub run_loop-IsDrained :
    (ending : ℕ → Ending) (configured t m i : ℕ) (fts : List ℕ) (s : System)
    → IsDraining s t m i fts
    → (s' : System) × (run_loop (finishing ending) (length fts + 2) configured s t i none
        ≡ some (ran s'))
      × IsDrained s t m i fts s'
run_loop-IsDrained ending configured t m i [] s d =
    let (s', e, em, it, so, st, th, tf, same) =
      run_loop_stops (finishing ending) configured t m i none s d in
    (
      s',
      e,
      record {
        empty = em;
        idle_ended = it;
        all_over = tt;
        stays_over = so;
        stopping_now = st;
        threads = th;
        thread_fiber = tf;
        rest = λ g gs. same g;
      },
    )
run_loop-IsDrained ending configured t m i (f ∷ fts) s d =
    let (s1, e, p) = run_turn-Passed ending configured t m i none s f fts d in
    let (s', e', r) = run_loop-IsDrained ending configured t m i fts s1 p.drains in
    let fuel : suc (length fts) + 2 ≡ suc (length fts + 2) = omega arith in
    (
      s',
      rw (fuel)
          (run_loop-going_on (finishing ending) configured t m i none (length fts + 2) s s1 e ∙ e'),
      record {
        empty = r.empty;
        idle_ended = r.idle_ended;
        all_over = (r.stays_over f d.ready.0.not_main d.ready.0.not_idle p.ended_now, r.all_over);
        stays_over = λ g gm gi h. r.stays_over g gm gi (p.stays_over g gm h);
        stopping_now = r.stopping_now;
        threads = r.threads ∙ p.threads;
        thread_fiber = r.thread_fiber ∙ p.thread_fiber;
        rest = λ g (gf, gs) gm gi. r.rest g gs gm gi ∙ p.rest g gf gm;
      },
    )
