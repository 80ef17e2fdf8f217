-- ===== src/Fiber.antt =====
-- src/fiber: fibers, which share the processor of a thread by switching contexts.
pub mod Switch
pub mod Finish
pub mod Live
use simple_http_server.Base.{
  ℕ, ◌+◌, ◌-◌, ◌%◌, ◌^◌, Bool, true, false, not, ◌||◌, List, [], ◌∷◌, Option, none, some,
  if◌then◌else◌, ◌==◌, update,
}

pub data State : Type 0 where
  init : State
  hold : State
  exec : State
  term : State
  ready : State
  except : State

abbrev pub state_value : State → ℕ
state_value init = 0
state_value hold = 1
state_value exec = 2
state_value term = 3
state_value ready = 4
state_value except = 5

abbrev pub same_state : State → State → Bool
same_state a b = state_value a == state_value b

-- The stack that code runs on: a thread's own, or that of the fiber at an address.
pub data Stack : Type 0 where
  of_thread : ℕ → Stack
  of_fiber : ℕ → Stack

-- `ucontext_t`: the place where `getcontext` or `swapcontext` left code that runs on a stack, or
-- after `makecontext` the beginning of `CallerMainFunc` (true) or `MainFunc` on the fiber's own.
pub data Context : Type 0 where
  saved : Stack → Context
  entry : Bool → Context

-- `m_cb` is a function named by a number, or empty; a null `m_stack` is `false`.
pub record Fiber : Type 0 where
  pub id : ℕ
  pub stack_size : ℕ
  pub state : State
  pub ctx : Context
  pub stack : Bool
  pub cb : Option ℕ

-- The thread-local variables, `t_scheduler_fiber` of the scheduler among them, and the stack
-- that the thread's processor is on.
pub record Locals : Type 0 where
  pub fiber : Option ℕ
  pub thread_fiber : Option ℕ
  pub scheduler_fiber : Option ℕ
  pub running : Stack

-- All fibers by address; `live` are the addresses that are allocated, `next_fiber` is fresh.
pub record Process : Type 0 where
  pub fiber : ℕ → Fiber
  pub live : List ℕ
  pub next_fiber : ℕ
  pub fiber_id : ℕ
  pub fiber_count : ℕ
  pub locals : ℕ → Locals

-- A call comes back, or ends the program at an assertion or a null pointer.
pub data Result (A : Type 0) : Type 0 where
  ran : A → Result A
  assertion_failed : Result A
  null_pointer : Result A

abbrev pub and_then : {A B : Type 0} → Result A → (A → Result B) → Result B
and_then (ran a) k = k a
and_then assertion_failed k = assertion_failed
and_then null_pointer k = null_pointer

abbrev pub assert : {A : Type 0} → Bool → Result A → Result A
assert true r = r
assert false r = assertion_failed

abbrev pub deref : {A : Type 0} → Option ℕ → (ℕ → Result A) → Result A
deref none k = null_pointer
deref (some f) k = k f

abbrev pub store : Process → ℕ → Fiber → Process
store p f x = record p { fiber = update p.fiber f x }

abbrev pub store_locals : Process → ℕ → Locals → Process
store_locals p t l = record p { locals = update p.locals t l }

abbrev pub set_state : Process → ℕ → State → Process
set_state p f s = store p f (record (p.fiber f) { state = s })

unfoldable pub set_this : Process → ℕ → Option ℕ → Process
set_this p t f = store_locals p t (record (p.locals t) { fiber = f })

-- The stack that the context of the fiber at `f` goes on with.
abbrev pub target : ℕ → Context → Stack
target f (saved s) = s
target f (entry use_caller) = of_fiber f

-- `swapcontext(&from->m_ctx, &to->m_ctx)`
unfoldable pub swapcontext : Process → ℕ → ℕ → ℕ → Process
swapcontext p t from to =
    let p' = store p from (record (p.fiber from) { ctx = saved (p.locals t).running }) in
    store_locals p' t (record (p'.locals t) { running = target to (p'.fiber to).ctx })

abbrev pub alloc : Process → Fiber → Process
alloc p x = record p {
  fiber = update p.fiber p.next_fiber x;
  live = p.next_fiber ∷ p.live;
  next_fiber = p.next_fiber + 1;
  fiber_count = (p.fiber_count + 1) % 2 ^ 64;
}

-- `Fiber::Fiber()`, the main fiber of a thread.
unfoldable pub new_main : Process → ℕ → Process
unfolding set_this
new_main p t =
    let here = (p.locals t).running in
    let made : Fiber = record {
      id = 0;
      stack_size = 0;
      state = exec;
      ctx = saved here;
      stack = false;
      cb = none;
    } in
    alloc (set_this p t (some p.next_fiber)) made

-- `Fiber::Fiber(cb, stack_size, use_caller)`, given the configured stack size.
unfoldable pub new_fiber : ℕ → Process → Option ℕ → ℕ → Bool → Process × ℕ
new_fiber configured p cb stack_size use_caller =
    let id = (p.fiber_id + 1) % 2 ^ 64 in
    let size = (if stack_size == 0 then configured else stack_size) % 2 ^ 32 in
    let made : Fiber = record {
      id = id;
      stack_size = size;
      state = init;
      ctx = entry use_caller;
      stack = true;
      cb = cb;
    } in
    (alloc (record p { fiber_id = id }) made, p.next_fiber)

abbrev pub is_free : State → Bool
is_free s = same_state s term || (same_state s except || same_state s init)

abbrev pub erase : ℕ → List ℕ → List ℕ
erase f [] = []
erase f (g ∷ gs) = if g == f then gs else g ∷ erase f gs

abbrev pub is_some : Option ℕ → Bool
is_some none = false
is_some (some f) = true

abbrev pub points_to : Option ℕ → ℕ → Bool
points_to none f = false
points_to (some g) f = g == f

-- `Fiber::~Fiber`, and the memory is given back.
unfoldable pub destroy : Process → ℕ → ℕ → Result Process
unfolding set_this
destroy p t f =
    let x = p.fiber f in
    let p' = record p {
      fiber_count = (p.fiber_count + (2 ^ 64 - 1)) % 2 ^ 64;
      live = erase f p.live;
    } in
    if x.stack
    then assert (is_free x.state) (ran p')
    else assert (not (is_some x.cb)) (
        assert (same_state x.state exec)
          (ran (if points_to (p.locals t).fiber f then set_this p' t none else p')))

-- `Fiber::GetFiberId`
unfoldable pub get_fiber_id : Process → ℕ → ℕ
get_fiber_id p t = elim (p.locals t).fiber [ none ↦ 0 | some f ↦ (p.fiber f).id ]

-- `Fiber::GetThis`: the first call in a thread makes its main fiber.
unfoldable pub get_this : Process → ℕ → Process × ℕ
unfolding new_main
get_this p t = elim (p.locals t).fiber [
  | some f ↦ (p, f)
  | none ↦
      let p' = new_main p t in
      (store_locals p' t (record (p'.locals t) { thread_fiber = some p.next_fiber }), p.next_fiber)
]

unfoldable pub reset : Process → ℕ → Option ℕ → Result Process
reset p f cb =
    let x = p.fiber f in
    assert x.stack (
      assert (is_free x.state)
        (ran (store p f (record x { cb = cb; ctx = entry false; state = init }))))

unfoldable pub call : Process → ℕ → ℕ → Result Process
unfolding set_this swapcontext
call p t f =
    let p' = set_state (set_this p t (some f)) f exec in
    deref (p'.locals t).thread_fiber (λ m. ran (swapcontext p' t m f))

unfoldable pub back : Process → ℕ → ℕ → Result Process
unfolding set_this swapcontext
back p t f =
    let p' = set_this p t (p.locals t).thread_fiber in
    deref (p'.locals t).thread_fiber (λ m. ran (swapcontext p' t f m))

unfoldable pub swap_in : Process → ℕ → ℕ → Result Process
unfolding set_this swapcontext
swap_in p t f =
    let p' = set_this p t (some f) in
    assert (not (same_state (p'.fiber f).state exec))
      (deref (p'.locals t).scheduler_fiber (λ m. ran (swapcontext (set_state p' f exec) t m f)))

unfoldable pub swap_out : Process → ℕ → ℕ → Result Process
unfolding set_this swapcontext
swap_out p t f =
    let p' = set_this p t (p.locals t).scheduler_fiber in
    deref (p'.locals t).scheduler_fiber (λ m. ran (swapcontext p' t f m))

unfoldable pub yield_to_ready : Process → ℕ → Result Process
unfolding get_this swap_out
yield_to_ready p t =
    let (p', cur) = get_this p t in
    assert (same_state (p'.fiber cur).state exec) (swap_out (set_state p' cur ready) t cur)

-- The assignment of the state is commented out in the source.
unfoldable pub yield_to_hold : Process → ℕ → Result Process
unfolding get_this swap_out
yield_to_hold p t =
    let (p', cur) = get_this p t in
    assert (same_state (p'.fiber cur).state exec) (swap_out p' t cur)

unfoldable pub total_fibers : Process → ℕ
total_fibers p = p.fiber_count

-- How `m_cb()` ends. An empty function throws.
pub data Ending : Type 0 where
  returned : Ending
  threw : Ending

-- The `try` of `MainFunc` and `CallerMainFunc` behind the call of `m_cb`.
unfoldable pub finish : Process → ℕ → Ending → Process
finish p cur returned = store p cur (record (p.fiber cur) { cb = none; state = term })
finish p cur threw = set_state p cur except

-- `MainFunc` behind the call, to its last switch.
unfoldable pub main_func_end : Process → ℕ → ℕ → Ending → Result Process
unfolding finish swap_out
main_func_end p t cur e = swap_out (finish p cur e) t cur

unfoldable pub caller_main_func_end : Process → ℕ → ℕ → Ending → Result Process
unfolding finish back
caller_main_func_end p t cur e = back (finish p cur e) t cur
