-- ===== src/Scheduler/Switcher.antt =====
-- src/scheduler/scheduler.cpp: `SchedulerSwitcher`, and `hasIdleThreads` of scheduler.h.
use simple_http_server.Base.{
  ℕ, ◌≡◌, refl, Bool, true, Option, none, some, if◌then◌else◌, ltb, inl, inr, Option-cases,
}
use simple_http_server.Fiber.{Result, ran, and_then, is_some, points_to}
use simple_http_server.Scheduler.{Scheduler, System}
use simple_http_server.Scheduler.Control.{switch_to}

abbrev pub has_idle_threads : Scheduler → Bool
has_idle_threads s = ltb 0 s.idle_thread_count

-- The constructor, which keeps the thread's scheduler and switches to the target, the scheduler of
-- `s`, unless it is null.
unfoldable pub new_switcher : System → ℕ → Bool → Result (Option ℕ × System)
unfolding switch_to
new_switcher s t has_target =
    let caller = s.current t in
    if has_target then and_then (switch_to s t none) (λ s'. ran (caller, s')) else ran (caller, s)

-- The destructor, where the scheduler of `s` is the one kept, if there is one.
unfoldable pub destroy_switcher : System → ℕ → Option ℕ → Result System
unfolding switch_to
destroy_switcher s t none = ran s
destroy_switcher s t (some caller) = switch_to s t none

switch_to_here :
    (s : System) (t : ℕ)
    → points_to (s.current t) s.scheduler.address ≡ true
    → is_some (s.current t) ≡ true
    → switch_to s t none ≡ ran s
unfolding switch_to
switch_to_here s t here has = rw (has, here) refl

-- A switcher to the scheduler that the thread is in changes nothing, from its constructor to its
-- destructor.
pub destroy_switcher-new_switcher :
    (s : System) (t : ℕ)
    → points_to (s.current t) s.scheduler.address ≡ true
    → is_some (s.current t) ≡ true
    → and_then (new_switcher s t true) (λ (caller, s'). destroy_switcher s' t caller) ≡ ran s
unfolding new_switcher destroy_switcher
destroy_switcher-new_switcher s t here has =
    rw (switch_to_here s t here has) (elim (Option-cases (s.current t)) [
      | inl k ↦ rw (k, destroy_switcher) refl
      | inr (caller, k) ↦ rw (k, destroy_switcher) (switch_to_here s t here has)
    ])
