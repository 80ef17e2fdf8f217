-- ===== src/Scheduler/Root/Caller.antt =====
-- A program of one thread: it makes a scheduler that uses its caller, starts it, schedules fibers
-- and stops it.
use simple_http_server.Base.{
  if◌then◌else◌, ℕ, ◌+◌, ◌≡◌, refl, ap, ◌∙◌, true, false, List, [], ◌∷◌, Option, none, some, arith,
  All, length, update,
}
use simple_http_server.Base.Bytes.{Bytes}
use simple_http_server.Fiber.{init, Process, ran, Ending, is_free, points_to, assert}
use simple_http_server.Scheduler.{Scheduler, System, is_over, stopping, with_scheduler}
use simple_http_server.Scheduler.Control.{
  new_scheduler, start, start_threads, has_idle_root, join_each, join_threads, stop,
  destroy_scheduler,
}
use simple_http_server.Scheduler.Drain.Full.{IsWaiting}
use simple_http_server.Scheduler.Root.{rooted}
use simple_http_server.Scheduler.Root.Stop.{stop-IsStopped}
use simple_http_server.Scheduler.Root.Made.{
  schedule_fibers, made, new_scheduler-made, filled, filled-threads, made-locals, made-root-state,
  made-current, made-root, filled-CanStop,
}

start-made :
    (id_of : ℕ → Option ℕ) (c : Scheduler)
    → c.is_stopping ≡ true
    → c.threads ≡ []
    → c.thread_count ≡ 0
    → start id_of c ≡ ran (record c { is_stopping = false })
unfolding start
start-made id_of c s t n = rw (start, s, t, n, start_threads) refl

destroy_stopped :
    (s : System) (t : ℕ)
    → stopping s.scheduler ≡ true
    → (d : System) × (destroy_scheduler s t ≡ ran d)
unfolding destroy_scheduler stopping
destroy_stopped s t h =
    let e : s.scheduler.is_stopping ≡ true = ground (arith, h) in
    let d =
      if points_to (s.current t) s.scheduler.address
      then record s { current = update s.current t none }
      else s in
    (d, ap (λ b. assert b (ran d)) e)

-- The end of such a program, in thread `t` with main fiber `m` and root fiber `r`.
pub record IsFinished (p : Process) (t r m : ℕ) (fts : List ℕ) (s : System) : Type 0 where
  pub empty : s.scheduler.tasks ≡ []
  pub all_over : All (λ f. is_over (s.process.fiber f).state ≡ true) fts
  pub root_free : is_free (s.process.fiber r).state ≡ true
  pub current : (s.process.locals t).fiber ≡ some m
  pub running : (s.process.locals t).running ≡ (p.locals t).running
  pub stopping_now : stopping s.scheduler ≡ true

module _ (resume : ℕ → ℕ → System → System) (join : ℕ → System → System) where
  join_none : (s : System) → s.scheduler.threads ≡ [] → join_threads resume join s ≡ s
  unfolding join_threads join_each
  join_none s e = rw (e) refl

  -- `stop` when nothing waits and the root fiber has not begun.
  stop_idle :
      (s : System) (t r : ℕ)
      → s.scheduler.root_fiber ≡ some r
      → s.scheduler.thread_count ≡ 0
      → (s.process.fiber r).state ≡ init
      → s.scheduler.tasks ≡ []
      → s.scheduler.active_thread_count ≡ 0
      → stop resume join s t
        ≡ ran (with_scheduler s (record s.scheduler { auto_stop = true; is_stopping = true }))
  unfolding stop has_idle_root stopping
  stop_idle s t r rf n st q a = rw (stop, rf, n, st, q, a) refl

module _ (ending : ℕ → Ending) (join : ℕ → System → System) (configured run : ℕ) (p : Process)
    (current : ℕ → Option ℕ) (t address : ℕ) (name : Bytes)
    (fresh : (p.locals t).fiber ≡ none) where
  stop-filled :
      (fts : List ℕ)
      → All (IsWaiting p) fts
      → (s : System) × (stop
            (rooted ending (length fts + 2) configured)
            join
            (filled configured run p current t address name fts)
            t
          ≡ ran s)
        × IsFinished p t (p.next_fiber + 1) p.next_fiber fts s
  unfolding schedule_fibers stopping
  stop-filled [] ws = (
    _,
    stop_idle (rooted ending 2 configured) join (filled configured run p current t address name [])
        t (p.next_fiber + 1) (made-root configured run p current t address name fresh) refl
        (made-root-state configured run p current t address name fresh) refl refl,
    record {
      empty = refl;
      all_over = tt;
      root_free =
          ap (λ x. is_free x) (made-root-state configured run p current t address name fresh);
      current = made-current configured run p current t address name fresh;
      running = made-locals configured run p current t address name fresh;
      stopping_now = refl;
    },
  )
  stop-filled (f ∷ fts) ws =
      let c = filled-CanStop configured run p current t address name fresh (f ∷ fts) ws in
      let (q, eq, s', e, e', r) =
        stop-IsStopped ending join configured t (p.next_fiber + 1) p.next_fiber f fts
          (filled configured run p current t address name (f ∷ fts)) c in
      let no_threads =
        r.threads ∙ filled-threads configured run p current t address name (f ∷ fts) in
      (
        s',
        e'
            ∙ ap ran
                (join_none (rooted ending (length (f ∷ fts) + 2) configured) join s' no_threads),
        record {
          empty = r.empty;
          all_over = r.all_over;
          root_free = ap (λ x. is_free x) r.root_ended;
          current = r.current;
          running = r.running ∙ made-locals configured run p current t address name fresh;
          stopping_now = r.stopping_now;
        },
      )

-- A program makes a scheduler with one thread that uses its caller, in a thread that has no fiber
-- and no scheduler, starts it, schedules any number of fibers that have been made before, that are
-- over, or are not running and go on on their own stacks, and stops the scheduler. If every fiber's
-- function ends, by a return or an exception, and does nothing else, then no assertion fails, from
-- the constructor to the destructor, and `stop` comes back after as many turns of `run` in the
-- root fiber as there are fibers and two more. Then the queue is empty, every fiber is in state
-- TERM or EXCEPT, the root fiber may be destroyed, and the thread runs its main fiber on the stack
-- on which it began.
pub stop-new_scheduler :
    (ending : ℕ → Ending) (join : ℕ → System → System) (id_of : ℕ → Option ℕ) (configured run : ℕ)
    (p : Process) (current : ℕ → Option ℕ) (t address : ℕ) (name : Bytes) (fts : List ℕ)
    → (p.locals t).fiber ≡ none
    → current t ≡ none
    → All (IsWaiting p) fts
    → (s : System) × (new_scheduler configured run p current t address 1 true name ≡ ran s)
      × (c : Scheduler) × (start id_of s.scheduler ≡ ran c)
      × (s' : System) × (stop
            (rooted ending (length fts + 2) configured)
            join
            (with_scheduler s (schedule_fibers c fts))
            t
          ≡ ran s')
      × (d : System) × (destroy_scheduler s' t ≡ ran d)
      × IsFinished p t (p.next_fiber + 1) p.next_fiber fts s'
stop-new_scheduler ending join id_of configured run p current t address name fts fresh alone ws =
    let s = made configured run p current t address name in
    let (s', e, r) = stop-filled ending join configured run p current t address name fresh fts ws in
    let (d, gone) = destroy_stopped s' t r.stopping_now in
    (
      s,
      new_scheduler-made configured run p current t address name alone,
      record s.scheduler { is_stopping = false },
      start-made id_of s.scheduler refl refl refl,
      s',
      e,
      d,
      gone,
      r,
    )
