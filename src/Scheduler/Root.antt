-- ===== src/Scheduler/Root.antt =====
-- The root fiber of a scheduler that uses its caller: `call` of src/fiber/fiber.cpp into it, with
-- `Scheduler::run` as its function, and the way back.
pub mod Run
pub mod Stop
pub mod Made
pub mod Caller
use simple_http_server.Base.{ℕ, ◌+◌, ◌<◌, ◌≡◌, refl, ap, ◌∙◌, ◌≢◌, false, Option, none, some, arith}
use simple_http_server.Fiber.{
  exec, term, saved, Process, Result, ran, and_then, deref, same_state, set_this, set_state,
  swapcontext, target, finish, back, returned, call, caller_main_func_end, Ending,
}
use simple_http_server.Scheduler.{System, with_process}
use simple_http_server.Scheduler.Run.{run}
use simple_http_server.Scheduler.Drain.{finishing}

-- `CallerMainFunc` of the root fiber `f`, whose function is `run`, with fuel for the loop in it.
unfoldable pub root_run : (ℕ → Ending) → ℕ → ℕ → ℕ → ℕ → System → Option (Result System)
unfolding caller_main_func_end
root_run ending fuel configured t f s = elim (run (finishing ending) fuel configured s t) [
  | none ↦ none
  | some r ↦ some (
      and_then r (λ s'.
        and_then (caller_main_func_end s'.process t f returned) (λ p. ran (with_process s' p))))
]

unfoldable pub system_of : System → Option (Result System) → System
system_of s (some (ran s')) = s'
system_of s r = s

-- What the call of the root fiber leads to.
unfoldable pub rooted : (ℕ → Ending) → ℕ → ℕ → ℕ → ℕ → System → System
rooted ending fuel configured t f s = system_of s (root_run ending fuel configured t f s)

-- Thread `t` runs its main fiber `m`, and the root fiber `r` is another one and is the thread's
-- scheduler fiber.
pub record HasRoot (p : Process) (t r m : ℕ) : Type 0 where
  pub thread_fiber : (p.locals t).thread_fiber ≡ some m
  pub scheduler_fiber : (p.locals t).scheduler_fiber ≡ some r
  pub other : m ≢ r
  pub root_allocated : r < p.next_fiber
  pub main_allocated : m < p.next_fiber

-- What `call` of the root fiber leaves.
pub record IsCalled (p : Process) (t r m : ℕ) (q : Process) : Type 0 where
  pub has_root : HasRoot q t r m
  pub next_fiber : q.next_fiber ≡ p.next_fiber
  pub main : (q.fiber m).ctx ≡ saved (p.locals t).running
  pub rest : (g : ℕ) → g ≢ r → g ≢ m → q.fiber g ≡ p.fiber g

set_this-thread_fiber :
    (p : Process) (t : ℕ) (x : Option ℕ)
    → ((set_this p t x).locals t).thread_fiber ≡ (p.locals t).thread_fiber
unfolding set_this
set_this-thread_fiber p t x = ground arith

-- The process behind the switch in `call`.
abbrev called : Process → ℕ → ℕ → ℕ → Process
called p t r m = swapcontext (set_state (set_this p t (some r)) r exec) t m r

called-IsCalled : (p : Process) (t r m : ℕ) → HasRoot p t r m → IsCalled p t r m (called p t r m)
unfolding set_this swapcontext
called-IsCalled p t r m h = record {
  has_root = record {
    thread_fiber = ground (arith, h.thread_fiber);
    scheduler_fiber = ground (arith, h.scheduler_fiber);
    other = h.other;
    root_allocated = h.root_allocated;
    main_allocated = h.main_allocated;
  };
  next_fiber = refl;
  main = ground (arith, h.other);
  rest = λ g gr gm. ground (arith, gr, gm);
}

pub call-IsCalled :
    (p : Process) (t r m : ℕ)
    → HasRoot p t r m
    → (q : Process) × (call p t r ≡ ran q) × IsCalled p t r m q
unfolding call
call-IsCalled p t r m h =
    let e = set_this-thread_fiber p t (some r) ∙ h.thread_fiber in
    (called p t r m, ap (λ o. deref o (λ n. ran (called p t r n))) e, called-IsCalled p t r m h)

-- What the end of the root fiber's function leaves.
pub record IsReturned (p : Process) (t r m : ℕ) (q : Process) : Type 0 where
  pub current : (q.locals t).fiber ≡ some m
  pub running : (q.locals t).running ≡ target m (p.fiber m).ctx
  pub root_ended : (q.fiber r).state ≡ term
  pub rest : (g : ℕ) → g ≢ r → q.fiber g ≡ p.fiber g

finish-locals : (p : Process) (f : ℕ) → (finish p f returned).locals ≡ p.locals
unfolding finish
finish-locals p f = refl

-- The process behind the switch in `back`.
abbrev gone_back : Process → ℕ → ℕ → ℕ → Process
gone_back p t r m = swapcontext (set_this (finish p r returned) t (p.locals t).thread_fiber) t r m

gone_back-IsReturned :
    (p : Process) (t r m : ℕ)
    → (p.locals t).thread_fiber ≡ some m
    → m ≢ r
    → IsReturned p t r m (gone_back p t r m)
unfolding set_this swapcontext finish
gone_back-IsReturned p t r m e ne = record {
  current = ground (arith, e);
  running = ground (arith, ne);
  root_ended = ground (arith, ne);
  rest = λ g gr. ground (arith, gr);
}

pub caller_main_func_end-IsReturned :
    (p : Process) (t r m : ℕ)
    → (p.locals t).thread_fiber ≡ some m
    → m ≢ r
    → (q : Process) × (caller_main_func_end p t r returned ≡ ran q) × IsReturned p t r m q
unfolding caller_main_func_end back
caller_main_func_end-IsReturned p t r m e ne =
    let same = ap (λ l. (l t).thread_fiber) (finish-locals p r) in
    let e' =
      set_this-thread_fiber (finish p r returned) t ((finish p r returned).locals t).thread_fiber
      ∙ (same ∙ e) in
    (
      gone_back p t r m,
      ap (λ o. deref o (λ n. ran (gone_back p t r n))) e',
      gone_back-IsReturned p t r m e ne,
    )
