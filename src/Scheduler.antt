-- ===== src/Scheduler.antt =====
-- src/scheduler: fibers and functions wait in one queue, from which each thread takes the first
-- that it may run.
pub mod Run
pub mod Control
pub mod Drain
pub mod Queue
pub mod Yield
pub mod Switch
pub mod Lifecycle
pub mod Range
pub mod Dump
pub mod Root
pub mod Named
pub mod Switcher
use simple_http_server.Base.{
  ℕ, zero, suc, ◌+◌, ◌-◌, ◌%◌, ◌^◌, Bool, true, false, not, ◌&&◌, ◌||◌, List, [], ◌∷◌, ◌++◌, Option,
  none, some, if◌then◌else◌, ◌==◌, is_empty, update,
}
use simple_http_server.Base.Bytes.{Bytes}
use simple_http_server.Fiber.{
  State, init, hold, exec, term, ready, except, same_state, Fiber, Process, Result, ran,
  assertion_failed, null_pointer, and_then, assert, is_some, points_to, set_state, new_fiber,
  get_this, reset, call, swap_in, yield_to_hold, main_func_end, returned,
}

-- `FiberAndThread`: the thread -1, which is any, is `none`.
pub record Task : Type 0 where
  pub fiber : Option ℕ
  pub cb : Option ℕ
  pub thread : Option ℕ

abbrev pub fiber_task : ℕ → Option ℕ → Task
fiber_task f thread = record { fiber = some f; cb = none; thread = thread }

abbrev pub cb_task : Option ℕ → Option ℕ → Task
cb_task cb thread = record { fiber = none; cb = cb; thread = thread }

-- The members of `Scheduler`, and how often `tickle` has been called.
pub record Scheduler : Type 0 where
  pub address : ℕ
  pub name : Bytes
  pub threads : List ℕ
  pub tasks : List Task
  pub root_fiber : Option ℕ
  pub thread_ids : List (Option ℕ)
  pub thread_count : ℕ
  pub active_thread_count : ℕ
  pub idle_thread_count : ℕ
  pub is_stopping : Bool
  pub auto_stop : Bool
  pub root_thread : Option ℕ
  pub tickles : ℕ

-- `current` is the thread-local `t_scheduler`.
pub record System : Type 0 where
  pub process : Process
  pub scheduler : Scheduler
  pub current : ℕ → Option ℕ

abbrev pub tickle : Scheduler → Scheduler
tickle s = record s { tickles = s.tickles + 1 }

abbrev pub tickle_if : Bool → Scheduler → Scheduler
tickle_if need s = if need then tickle s else s

-- `scheduleNoLock`: an empty task is dropped.
unfoldable pub schedule_no_lock : Scheduler → Task → Scheduler × Bool
schedule_no_lock s ft = (
  if is_some ft.fiber || is_some ft.cb then record s { tasks = s.tasks ++ ft ∷ [] } else s,
  is_empty s.tasks,
)

unfoldable pub schedule : Scheduler → Task → Scheduler
unfolding schedule_no_lock
schedule s ft = let (s', need) = schedule_no_lock s ft in tickle_if need s'

-- The loop of `schedule(begin, end)`.
unfoldable pub schedule_each : Scheduler → List Task → Scheduler × Bool
unfolding schedule_no_lock
schedule_each s [] = (s, false)
schedule_each s (ft ∷ rest) =
    let (s', need) = schedule_no_lock s ft in
    let (s'', needs) = schedule_each s' rest in (s'', need || needs)

unfoldable pub schedule_all : Scheduler → List Task → Scheduler
unfolding schedule_each
schedule_all s fts = let (s', need) = schedule_each s fts in tickle_if need s'

-- The tests of the loop over `m_fibers` in `run`.
abbrev pub is_for_other : ℕ → Task → Bool
is_for_other t ft = elim ft.thread [ none ↦ false | some n ↦ not (n == t) ]

abbrev pub is_running : Process → Task → Bool
is_running p ft = elim ft.fiber [ none ↦ false | some f ↦ same_state (p.fiber f).state exec ]

-- The result of that loop: `ft`, what is left in the queue, and `tickle_me`.
pub record Picked : Type 0 where
  pub task : Option Task
  pub tasks : List Task
  pub tickle_me : Bool

abbrev pub keep : Task → Picked → Picked
keep ft k = record k { tasks = ft ∷ k.tasks }

unfoldable pub pick : Process → ℕ → List Task → Bool → Result Picked
pick p t [] tickle_me = ran (record { task = none; tasks = []; tickle_me = tickle_me })
pick p t (ft ∷ rest) tickle_me =
    let skipped = and_then (pick p t rest true) (λ k. ran (keep ft k)) in
    let passed = and_then (pick p t rest tickle_me) (λ k. ran (keep ft k)) in
    if is_for_other t ft
    then skipped
    else assert (is_some ft.fiber || is_some ft.cb) (
        if is_running p ft
        then passed
        else ran
            (record { task = some ft; tasks = rest; tickle_me = tickle_me || not (is_empty rest) }))

abbrev pub increment : ℕ → ℕ
increment n = (n + 1) % 2 ^ 64

abbrev pub decrement : ℕ → ℕ
decrement n = (n + (2 ^ 64 - 1)) % 2 ^ 64

-- `Scheduler::stopping`
unfoldable pub stopping : Scheduler → Bool
stopping s = s.auto_stop && (s.is_stopping && (is_empty s.tasks && (s.active_thread_count == 0)))

abbrev pub with_process : System → Process → System
with_process s p = record s { process = p }

abbrev pub with_scheduler : System → Scheduler → System
with_scheduler s c = record s { scheduler = c }

abbrev pub is_over : State → Bool
is_over s = same_state s term || same_state s except

abbrev pub leave_active : System → System
leave_active s =
    with_scheduler s
      (record s.scheduler { active_thread_count = decrement s.scheduler.active_thread_count })

-- A fiber that is not over and has not been scheduled again is on hold.
abbrev pub put_on_hold : System → ℕ → System
put_on_hold s f = with_process s (set_state s.process f hold)

-- Behind the switch, on the state of the fiber that has run.
unfoldable pub settle : System → ℕ → System
unfolding schedule
settle s f =
    let state = (s.process.fiber f).state in
    if same_state state ready
    then with_scheduler s (schedule s.scheduler (fiber_task f none))
    else if not (is_over state)
    then put_on_hold s f
    else s

-- The loop of `Scheduler::idle`, from the start or a switch into the idle fiber to the next switch
-- back.
unfoldable pub idle : System → ℕ → ℕ → Result System
unfolding stopping yield_to_hold main_func_end
idle s t f =
    let next =
      if stopping s.scheduler
      then main_func_end s.process t f returned
      else yield_to_hold s.process t in
    and_then next (λ p. ran (with_process s p))

-- What a turn of the loop in `run` leaves: the system, `cb_fiber`, and whether the loop has ended.
pub record Turn : Type 0 where
  pub system : System
  pub cb_fiber : Option ℕ
  pub over : Bool

abbrev pub going_on : System → Option ℕ → Turn
going_on s cb_fiber = record { system = s; cb_fiber = cb_fiber; over = false }

-- The branch for a thread that has found nothing to do.
unfoldable pub run_idle : System → ℕ → ℕ → Option ℕ → Result Turn
unfolding swap_in idle
run_idle s t f cb_fiber =
    let c = s.scheduler in
    if same_state (s.process.fiber f).state term
    then ran (record { system = s; cb_fiber = cb_fiber; over = true })
    else let s' =
        with_scheduler s (record c { idle_thread_count = increment c.idle_thread_count }) in
      and_then (swap_in s'.process t f) (λ p. and_then (idle (with_process s' p) t f) (λ r.
        let d = r.scheduler in
        let r' =
          with_scheduler r (record d { idle_thread_count = decrement d.idle_thread_count }) in
        ran (
          going_on (if is_over (r'.process.fiber f).state then r' else put_on_hold r' f) cb_fiber)))

abbrev pub is_runnable : Process → Option ℕ → Bool
is_runnable p none = false
is_runnable p (some f) = not (is_over (p.fiber f).state)

-- `resume t f s` is what the switch into fiber `f` in thread `t` at `s` leads to by the time that
-- the thread's scheduler fiber goes on: the work of the fiber's own function, and meanwhile of the
-- other threads.
module _ (resume : ℕ → ℕ → System → System) where
  unfoldable pub run_fiber : System → ℕ → ℕ → Result System
  unfolding swap_in
  run_fiber s t f =
      and_then (swap_in s.process t f) (λ p. ran (leave_active (resume t f (with_process s p))))

  -- `cb_fiber` is made anew, or given the function.
  unfoldable pub cb_fiber_for : ℕ → Process → Option ℕ → Option ℕ → Result (Process × ℕ)
  unfolding new_fiber reset
  cb_fiber_for configured p none cb = ran (new_fiber configured p cb 0 false)
  cb_fiber_for configured p (some c) cb = and_then (reset p c cb) (λ p'. ran (p', c))

  -- Behind the switch into `cb_fiber`.
  unfoldable pub settle_cb : System → ℕ → Result Turn
  unfolding schedule reset
  settle_cb s c =
      let state = (s.process.fiber c).state in
      if same_state state ready
      then ran (going_on (with_scheduler s (schedule s.scheduler (fiber_task c none))) none)
      else if is_over state
      then and_then (reset s.process c none) (λ p. ran (going_on (with_process s p) (some c)))
      else ran (going_on (put_on_hold s c) none)

  unfoldable pub run_cb : ℕ → System → ℕ → Option ℕ → Option ℕ → Result Turn
  unfolding run_fiber cb_fiber_for settle_cb
  run_cb configured s t cb_fiber cb =
      and_then (cb_fiber_for configured s.process cb_fiber cb)
        (λ (p, c). and_then (run_fiber (with_process s p) t c) (λ s'. settle_cb s' c))
