-- ===== src/Tests/Fiber.antt =====
-- Tests of src/fiber.
use simple_http_server.Base.{
  ℕ, ◌≡◌, refl, true, false, [], ◌∷◌, none, some, arith, if◌then◌else◌, ◌==◌,
}
use simple_http_server.Fiber.{
  init, exec, entry, saved, of_thread, Fiber, Process, ran, assertion_failed, and_then, swap_in,
  yield_to_hold, main_func_end, returned, reset, new_fiber, destroy, erase, total_fibers,
}
use simple_http_server.Fiber.Switch.{CanSwap, swap_in-yield_to_hold}
use simple_http_server.Fiber.Finish.{reset-main_func_end}
use simple_http_server.Fiber.Live.{IsValid, new_fiber-IsValid, destroy-IsValid, has}

abbrev main : Fiber
main = record {
  id = 0;
  stack_size = 0;
  state = exec;
  ctx = saved (of_thread 1);
  stack = false;
  cb = none;
}

abbrev waiting : ℕ → Fiber
waiting id = record {
  id = id;
  stack_size = 131072;
  state = init;
  ctx = entry false;
  stack = true;
  cb = some 7;
}

-- Thread 1 has its main fiber, which schedules, and two fibers that have not begun.
abbrev pub process : Process
process = record {
  fiber = λ f. if f == 0 then main else waiting f;
  live = 2 ∷ 1 ∷ 0 ∷ [];
  next_fiber = 3;
  fiber_id = 2;
  fiber_count = 3;
  locals = λ t. record {
    fiber = some 0;
    thread_fiber = some 0;
    scheduler_fiber = some 0;
    running = of_thread t;
  };
}

pub can_swap_1 : CanSwap process 1 1 0
can_swap_1 = record { scheduler = refl; other = ground arith; not_running = refl; own_stack = refl }

pub can_swap_2 : CanSwap process 1 2 0
can_swap_2 = record { scheduler = refl; other = ground arith; not_running = refl; own_stack = refl }

process-IsValid : IsValid process
unfolding total_fibers
process-IsValid = record {
  counted = omega arith;
  allocated = (omega arith, (omega arith, (omega arith, tt)));
  numbered = λ f hf hs. ground (arith, hf, hs);
  positive = λ f hf hs. ground (arith, hf, hs);
  distinct = λ f g hf hg sf sg e. ground (arith, sf, sg, e);
}

swap_in-yield_to_hold_example :
    and_then (and_then (swap_in process 1 1) (λ r. yield_to_hold r 1)) (λ q. swap_in q 1 1)
    ≡ assertion_failed
swap_in-yield_to_hold_example = swap_in-yield_to_hold process 1 1 0 can_swap_1

reset-main_func_end_example :
    (q : Process) × (and_then
        (and_then (swap_in process 1 1) (λ r. main_func_end r 1 1 returned))
        (λ r. reset r 1 (some 8))
      ≡ ran q)
    × ((q.fiber 1).state ≡ init)
    × ((q.fiber 1).ctx ≡ entry false)
    × ((q.fiber 1).cb ≡ some 8)
    × CanSwap q 1 1 0
reset-main_func_end_example = reset-main_func_end process 1 1 0 returned (some 8) can_swap_1 refl

new_fiber-IsValid_example : IsValid (new_fiber 131072 process (some 9) 0 false).0
new_fiber-IsValid_example =
    new_fiber-IsValid 131072 process (some 9) 0 false (omega arith) process-IsValid

destroy-IsValid_example :
    (q : Process) × (destroy process 1 2 ≡ ran q)
    × (q.fiber ≡ process.fiber)
    × (q.live ≡ erase 2 process.live)
    × IsValid q
unfolding has
destroy-IsValid_example = destroy-IsValid process 1 2 refl refl refl process-IsValid
