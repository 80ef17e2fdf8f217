-- ===== src/Fiber/Switch.antt =====
-- What is left of a switch into a fiber when the fiber switches back.
use simple_http_server.Base.{ℕ, ◌≡◌, refl, ◌≢◌, false, Option, some, arith, ap, ◌∙◌}
use simple_http_server.Fiber.{
  State, exec, ready, of_fiber, saved, deref, Fiber, Process, ran, assertion_failed, and_then,
  target, set_this, swapcontext, swap_in, swap_out, get_this, yield_to_hold, yield_to_ready,
  same_state, set_state,
}

-- The scheduler's fiber of the thread is `m`, and `f` is another fiber that is not running and
-- goes on with its own stack.
pub record CanSwap (p : Process) (t f m : ℕ) : Type 0 where
  pub scheduler : (p.locals t).scheduler_fiber ≡ some m
  pub other : m ≢ f
  pub not_running : same_state (p.fiber f).state exec ≡ false
  pub own_stack : target f (p.fiber f).ctx ≡ of_fiber f

-- What a process is after a switch into `f` in thread `t`, with `f` at `x`.
pub record IsIn (p : Process) (t f m : ℕ) (x : Fiber) (q : Process) : Type 0 where
  pub current : (q.locals t).fiber ≡ some f
  pub running : (q.locals t).running ≡ of_fiber f
  pub scheduler : (q.locals t).scheduler_fiber ≡ some m
  pub thread_fiber : (q.locals t).thread_fiber ≡ (p.locals t).thread_fiber
  pub fiber : q.fiber f ≡ x
  pub main : q.fiber m ≡ record (p.fiber m) { ctx = saved (p.locals t).running }
  pub rest : (g : ℕ) → g ≢ f → g ≢ m → q.fiber g ≡ p.fiber g

set_this-scheduler :
    (p : Process) (t : ℕ) (x : Option ℕ)
    → ((set_this p t x).locals t).scheduler_fiber ≡ (p.locals t).scheduler_fiber
unfolding set_this
set_this-scheduler p t x = ground arith

pub set_this-fiber : (p : Process) (t : ℕ) (x : Option ℕ) → (set_this p t x).fiber ≡ p.fiber
unfolding set_this
set_this-fiber p t x = refl

-- The process behind the switch of the contexts in `swapIn`.
abbrev pub entered : Process → ℕ → ℕ → ℕ → Process
entered p t f m = swapcontext (set_state (set_this p t (some f)) f exec) t m f

-- A switch into a fiber that is not running gets to the switch of the contexts.
pub swap_in_switches :
    (p : Process) (t f m : ℕ) → CanSwap p t f m → swap_in p t f ≡ ran (entered p t f m)
unfolding swap_in
swap_in_switches p t f m c =
    rw (set_this-scheduler p t (some f), c.scheduler, set_this-fiber p t (some f), c.not_running)
      refl

pub entered-IsIn :
    (p : Process) (t f m : ℕ)
    → CanSwap p t f m
    → IsIn p t f m (record (p.fiber f) { state = exec }) (entered p t f m)
unfolding set_this swapcontext
entered-IsIn p t f m c = record {
  current = ground arith;
  running = ground (arith, c.own_stack, c.other);
  scheduler = ground (arith, c.scheduler);
  thread_fiber = ground arith;
  fiber = ground (arith, c.other);
  main = ground (arith, c.other);
  rest = λ g nf nm. ground (arith, c.other);
}

-- A switch back from `f`, from where it has got to.
pub swap_out_switches :
    (q : Process) (t f m : ℕ)
    → (q.locals t).scheduler_fiber ≡ some m
    → swap_out q t f ≡ ran (swapcontext (set_this q t (q.locals t).scheduler_fiber) t f m)
unfolding swap_out
swap_out_switches q t f m e =
    ap (λ o. deref o (λ n. ran (swapcontext (set_this q t (q.locals t).scheduler_fiber) t f n)))
      (set_this-scheduler q t (q.locals t).scheduler_fiber ∙ e)

-- What a process is after a switch into `f` and back, with `f` left at `x`.
pub record IsBack (p : Process) (t f m : ℕ) (x : Fiber) (q : Process) : Type 0 where
  pub current : (q.locals t).fiber ≡ some m
  pub running : (q.locals t).running ≡ (p.locals t).running
  pub fiber : q.fiber f ≡ record x { ctx = saved (of_fiber f) }
  pub scheduler : (q.locals t).scheduler_fiber ≡ some m
  pub thread_fiber : (q.locals t).thread_fiber ≡ (p.locals t).thread_fiber
  pub rest : (g : ℕ) → g ≢ f → g ≢ m → q.fiber g ≡ p.fiber g

pub swap_out-IsBack :
    (p : Process) (t f m : ℕ) (x : Fiber) (q : Process)
    → m ≢ f
    → IsIn p t f m x q
    → IsBack p t f m x (swapcontext (set_this q t (q.locals t).scheduler_fiber) t f m)
unfolding set_this swapcontext
swap_out-IsBack p t f m x q ne i = record {
  current = ground (arith, i.scheduler);
  running = ground (arith, ne, ap (λ x. x.ctx) i.main, i.running);
  fiber = ground (arith, ne, i.fiber, i.running);
  scheduler = ground (arith, i.scheduler);
  thread_fiber = ground (arith, i.thread_fiber);
  rest = λ g nf nm. ground (arith, i.rest g nf nm);
}

-- If the scheduler's fiber of a thread switches into another fiber that is not running and has a
-- stack of its own, and that fiber switches back, then the thread is where it was before, the
-- scheduler's fiber is its current one, the other fiber is kept where it left, still in state
-- EXEC, and no third fiber has changed.
pub swap_out-swap_in :
    (p : Process) (t f m : ℕ)
    → CanSwap p t f m
    → (q : Process) × (and_then (swap_in p t f) (λ r. swap_out r t f) ≡ ran q)
      × IsBack p t f m (record (p.fiber f) { state = exec }) q
swap_out-swap_in p t f m c =
    let i = entered-IsIn p t f m c in
    (
      _,
      rw (swap_in_switches p t f m c) (swap_out_switches _ t f m i.scheduler),
      swap_out-IsBack p t f m _ _ c.other i,
    )

pub set_state-IsIn :
    (p : Process) (t f m : ℕ) (x : Fiber) (q : Process) (s : State)
    → m ≢ f
    → IsIn p t f m x q
    → IsIn p t f m (record x { state = s }) (set_state q f s)
set_state-IsIn p t f m x q s ne i = record {
  current = i.current;
  running = i.running;
  scheduler = i.scheduler;
  thread_fiber = i.thread_fiber;
  fiber = ground (arith, i.fiber);
  main = ground (arith, ne, i.main);
  rest = λ g nf nm. ground (arith, i.rest g nf nm);
}

-- A fiber that has been left in a state other than EXEC can be switched into again.
pub CanSwap-IsBack :
    (p : Process) (t f m : ℕ) (x : Fiber) (q : Process)
    → m ≢ f
    → same_state x.state exec ≡ false
    → IsBack p t f m x q
    → CanSwap q t f m
CanSwap-IsBack p t f m x q ne e b = record {
  scheduler = b.scheduler;
  other = ne;
  not_running = rw (b.fiber) e;
  own_stack = rw (b.fiber) refl;
}

pub get_this_current : (q : Process) (t f : ℕ) → (q.locals t).fiber ≡ some f → get_this q t ≡ (q, f)
unfolding get_this
get_this_current q t f e = rw (e, get_this) refl

-- From within `f` the two ways to yield, in terms of `swapOut`.
pub yield_to_hold_inside :
    (p : Process) (t f m : ℕ) (x : Fiber) (q : Process)
    → IsIn p t f m x q
    → x.state ≡ exec
    → yield_to_hold q t ≡ swap_out q t f
unfolding yield_to_hold
yield_to_hold_inside p t f m x q i e = rw (get_this_current q t f i.current, i.fiber, e) refl

yield_to_ready_inside :
    (p : Process) (t f m : ℕ) (x : Fiber) (q : Process)
    → IsIn p t f m x q
    → x.state ≡ exec
    → yield_to_ready q t ≡ swap_out (set_state q f ready) t f
unfolding yield_to_ready
yield_to_ready_inside p t f m x q i e = rw (get_this_current q t f i.current, i.fiber, e) refl

swap_in_running :
    (q : Process) (t f : ℕ) → (q.fiber f).state ≡ exec → swap_in q t f ≡ assertion_failed
unfolding swap_in
swap_in_running q t f e = rw (set_this-fiber q t (some f), e) refl

-- A fiber that gives the processor up with `YieldToHold` cannot be switched into again: it is
-- still in state EXEC, and `swapIn` fails its assertion, until something else sets the state.
pub swap_in-yield_to_hold :
    (p : Process) (t f m : ℕ)
    → CanSwap p t f m
    → and_then (and_then (swap_in p t f) (λ r. yield_to_hold r t)) (λ q. swap_in q t f)
      ≡ assertion_failed
swap_in-yield_to_hold p t f m c =
    let i = entered-IsIn p t f m c in
    let b = swap_out-IsBack p t f m _ _ c.other i in
    rw
      (
        swap_in_switches p t f m c,
        yield_to_hold_inside p t f m _ (entered p t f m) i refl,
        swap_out_switches (entered p t f m) t f m i.scheduler,
      )
      (swap_in_running _ t f (ap (λ x. x.state) b.fiber))

-- A fiber that gives the processor up with `YieldToReady` is left in state READY where it was, and
-- can be switched into again.
pub swap_in-yield_to_ready :
    (p : Process) (t f m : ℕ)
    → CanSwap p t f m
    → (q : Process) × (and_then (swap_in p t f) (λ r. yield_to_ready r t) ≡ ran q)
      × IsBack p t f m (record (p.fiber f) { state = ready }) q
      × CanSwap q t f m
swap_in-yield_to_ready p t f m c =
    let i = entered-IsIn p t f m c in
    let i' = set_state-IsIn p t f m _ _ ready c.other i in
    let b = swap_out-IsBack p t f m _ _ c.other i' in
    (
      _,
      rw (swap_in_switches p t f m c, yield_to_ready_inside p t f m _ (entered p t f m) i refl)
          (swap_out_switches _ t f m i'.scheduler),
      b,
      CanSwap-IsBack p t f m _ _ c.other refl b,
    )
