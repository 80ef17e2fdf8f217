-- ===== src/Scheduler/Drain.antt =====
-- A thread runs the queue empty and then stops, if every fiber's function ends.
pub mod Pass
pub mod Stop
pub mod Full
use simple_http_server.Base.{
  ℕ, zero, suc, ◌+◌, ◌-◌, ◌%◌, ◌^◌, ◌≡◌, refl, sym, ◌≢◌, ◌⊎◌, inl, inr, Bool, true, false, not,
  ◌&&◌, ◌||◌, List, [], ◌∷◌, Option, none, some, arith, if◌then◌else◌, ◌==◌, ==_iff, ap, ◌∙◌, subst,
  All, length, map, is_empty, Bool-cases,
}
use simple_http_server.Fiber.{
  State, exec, term, Fiber, Process, Result, ran, assertion_failed, null_pointer, and_then, swap_in,
  Ending, returned, threw, main_func_end, same_state, State, init, hold, ready, except,
}
use simple_http_server.Fiber.Switch.{CanSwap, IsBack, entered, swap_in_switches}
use simple_http_server.Fiber.Finish.{ended, swap_in-main_func_end}
use simple_http_server.Scheduler.{
  Task, fiber_task, Scheduler, System, Turn, going_on, Picked, pick, with_process, leave_active,
  run_fiber, is_over, settle, is_runnable, stopping, idle, run_idle, schedule, put_on_hold,
}
use simple_http_server.Scheduler.Run.{
  take, run_task_fiber, run_task, run_picked, run_turn, run_loop,
}

-- What the end of a fiber's function leads to.
unfoldable pub process_of : Process → Result Process → Process
process_of p (ran q) = q
process_of p assertion_failed = p
process_of p null_pointer = p

-- Fibers whose functions come to their ends, each as `ending` says, and do nothing else.
pub finishing : (ℕ → Ending) → ℕ → ℕ → System → System
finishing ending t f s =
    with_process s (process_of s.process (main_func_end s.process t f (ending f)))

-- Fiber `f`, which is neither the scheduler's fiber `m` nor the idle fiber `i`, is over or can be
-- switched into.
pub record IsReady (p : Process) (t m i f : ℕ) : Type 0 where
  pub not_main : f ≢ m
  pub not_idle : f ≢ i
  pub able : (is_over (p.fiber f).state ≡ true) ⊎ CanSwap p t f m

is_over-exec : (s : State) → is_over s ≡ true → same_state s exec ≡ false
is_over-exec s h = ground (arith, h)

pub IsReady-exec :
    (p : Process) (t m i f : ℕ) → IsReady p t m i f → same_state (p.fiber f).state exec ≡ false
IsReady-exec p t m i f r = elim r.able [
  | inl o ↦ is_over-exec (p.fiber f).state o
  | inr c ↦ c.not_running
]

is_over-ended : (x : Fiber) (e : Ending) → is_over (ended x e).state ≡ true
unfolding ended
is_over-ended x returned = refl
is_over-ended x threw = refl

-- A run of one fiber leaves the others as ready as they were.
pub IsBack-over :
    (p : Process) (t f m : ℕ) (x : Fiber) (e : Ending) (q : Process)
    → IsBack p t f m (ended x e) q
    → is_over (q.fiber f).state ≡ true
IsBack-over p t f m x e q b = ap (λ z. is_over z.state) b.fiber ∙ is_over-ended x e

pub CanSwap-rest :
    (p : Process) (t f m g : ℕ) (x : Fiber) (q : Process)
    → g ≢ f
    → g ≢ m
    → IsBack p t f m x q
    → CanSwap p t g m
    → CanSwap q t g m
CanSwap-rest p t f m g x q gf gm b c = record {
  scheduler = b.scheduler;
  other = c.other;
  not_running = rw (b.rest g gf gm) c.not_running;
  own_stack = rw (b.rest g gf gm) c.own_stack;
}

pub IsReady-rest :
    (p : Process) (t m i f g : ℕ) (x : Fiber) (e : Ending) (q : Process)
    → IsBack p t f m (ended x e) q
    → IsReady p t m i g
    → IsReady q t m i g
IsReady-rest p t m i f g x e q b r = record {
  not_main = r.not_main;
  not_idle = r.not_idle;
  able = elim (Bool-cases (g == f)) [
    | inl eq ↦ inl (rw ((==_iff g f).0 eq) (IsBack-over p t f m x e q b))
    | inr ne ↦
        let gf : g ≢ f = λ k. ground (arith, ne, k) in
        elim r.able [
          | inl o ↦ inl (rw (b.rest g gf r.not_main) o)
          | inr c ↦ inr (CanSwap-rest p t f m g (ended x e) q gf r.not_main b c)
        ]
  ];
}

-- A run of a fiber whose function ends.
pub run_fiber-finishing :
    (ending : ℕ → Ending) (s : System) (t f m : ℕ)
    → CanSwap s.process t f m
    → (q : Process) × (run_fiber (finishing ending) s t f ≡ ran (leave_active (with_process s q)))
      × IsBack s.process t f m (ended (record (s.process.fiber f) { state = exec }) (ending f)) q
unfolding run_fiber finishing process_of
run_fiber-finishing ending s t f m c =
    let (q, e, b) = swap_in-main_func_end s.process t f m (ending f) c in
    let e' : main_func_end (entered s.process t f m) t f (ending f) ≡ ran q =
      sym (
        ap (λ r. and_then r (λ p. main_func_end p t f (ending f)))
          (swap_in_switches s.process t f m c))
      ∙ e in
    (q, rw (swap_in_switches s.process t f m c, e') refl, b)
