-- ===== src/Fiber/Finish.antt =====
-- The end of a fiber's function, and how the fiber is used again.
use simple_http_server.Base.{ℕ, ◌≡◌, refl, ◌≢◌, true, false, Option, none, arith, ap, ◌∙◌}
use simple_http_server.Fiber.{
  init, exec, term, except, entry, Fiber, Process, ran, and_then, swap_in, Ending, returned, threw,
  finish, main_func_end, reset, store, is_free,
}
use simple_http_server.Fiber.Switch.{
  CanSwap, IsIn, IsBack, entered, entered-IsIn, swap_in_switches, swap_out_switches,
  swap_out-IsBack,
}

-- A fiber whose function has ended.
unfoldable pub ended : Fiber → Ending → Fiber
ended x returned = record x { cb = none; state = term }
ended x threw = record x { state = except }

finish-IsIn :
    (p : Process) (t f m : ℕ) (x : Fiber) (q : Process) (e : Ending)
    → m ≢ f
    → IsIn p t f m x q
    → IsIn p t f m (ended x e) (finish q f e)
unfolding finish ended
finish-IsIn p t f m x q returned ne i = record {
  current = i.current;
  running = i.running;
  scheduler = i.scheduler;
  thread_fiber = i.thread_fiber;
  fiber = ground (arith, i.fiber);
  main = ground (arith, ne, i.main);
  rest = λ g nf nm. ground (arith, i.rest g nf nm);
}
finish-IsIn p t f m x q threw ne i = record {
  current = i.current;
  running = i.running;
  scheduler = i.scheduler;
  thread_fiber = i.thread_fiber;
  fiber = ground (arith, i.fiber);
  main = ground (arith, ne, i.main);
  rest = λ g nf nm. ground (arith, i.rest g nf nm);
}

-- When the function of a fiber that has been switched into ends, the thread is back with its
-- scheduler's fiber, where it was; the fiber is in state TERM without a function if the function
-- returned, in state EXCEPT with its function if it threw, and no third fiber has changed.
pub swap_in-main_func_end :
    (p : Process) (t f m : ℕ) (e : Ending)
    → CanSwap p t f m
    → (q : Process) × (and_then (swap_in p t f) (λ r. main_func_end r t f e) ≡ ran q)
      × IsBack p t f m (ended (record (p.fiber f) { state = exec }) e) q
unfolding main_func_end
swap_in-main_func_end p t f m e c =
    let i = finish-IsIn p t f m _ _ e c.other (entered-IsIn p t f m c) in
    (
      _,
      rw (swap_in_switches p t f m c)
          (swap_out_switches (finish (entered p t f m) f e) t f m i.scheduler),
      swap_out-IsBack p t f m _ _ c.other i,
    )

ended-is_free : (x : Fiber) (e : Ending) → is_free (ended x e).state ≡ true
unfolding ended
ended-is_free x returned = refl
ended-is_free x threw = refl

ended-stack : (x : Fiber) (e : Ending) → (ended x e).stack ≡ x.stack
unfolding ended
ended-stack x returned = refl
ended-stack x threw = refl

reset_free :
    (q : Process) (f : ℕ) (cb : Option ℕ)
    → (q.fiber f).stack ≡ true
    → is_free (q.fiber f).state ≡ true
    → reset q f cb
      ≡ ran (store q f (record (q.fiber f) { cb = cb; ctx = entry false; state = init }))
unfolding reset
reset_free q f cb hs hf = rw (hs, hf) refl

-- A fiber with a stack that has been switched into and whose function has ended, in either way,
-- can be given a new function; it is then in state INIT and can be switched into again, to start
-- at the beginning of `MainFunc`.
pub reset-main_func_end :
    (p : Process) (t f m : ℕ) (e : Ending) (cb : Option ℕ)
    → CanSwap p t f m
    → (p.fiber f).stack ≡ true
    → (q : Process) × (and_then
          (and_then (swap_in p t f) (λ r. main_func_end r t f e))
          (λ r. reset r f cb)
        ≡ ran q)
      × ((q.fiber f).state ≡ init)
      × ((q.fiber f).ctx ≡ entry false)
      × ((q.fiber f).cb ≡ cb)
      × CanSwap q t f m
reset-main_func_end p t f m e cb c hs =
    let (q, ran_q, b) = swap_in-main_func_end p t f m e c in
    let x = record (p.fiber f) { state = exec } in
    (
      store q f (record (q.fiber f) { cb = cb; ctx = entry false; state = init }),
      rw (ran_q) (
          reset_free q f cb (ap (λ z. z.stack) b.fiber ∙ (ended-stack x e ∙ hs))
            (ap (λ z. is_free z.state) b.fiber ∙ ended-is_free x e)),
      ground arith,
      ground arith,
      ground arith,
      record {
        scheduler = b.scheduler;
        other = c.other;
        not_running = ground arith;
        own_stack = ground arith;
      },
    )
