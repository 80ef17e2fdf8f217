-- ===== src/Scheduler/Named.antt =====
-- src/scheduler/scheduler.cpp: the names of the threads that a scheduler uses and makes.
use simple_http_server.Base.{
  ℕ, zero, suc, ◌+◌, ◌≤◌, ◌<◌, ◌≡◌, ◌≢◌, refl, Bool-cases, inl, inr, ==_iff, ap, ◌∙◌, Bool, false,
  [], ◌∷◌, ◌++◌, Option, none, some, if◌then◌else◌, is_empty, ◌==◌, arith,
}
use simple_http_server.Base.Bytes.{Bytes, codes, decimal}
use simple_http_server.Fiber.{Process, Result, ran, and_then}
use simple_http_server.Mutex.{Attempt, done, failed}
use simple_http_server.Scheduler.{System}
use simple_http_server.Scheduler.Control.{new_scheduler}
use simple_http_server.Thread.{new_thread, set_name}
use simple_http_server.Thread

-- The constructor, with `Thread::SetName(m_name)` in the thread that it uses.
unfoldable pub new_named_scheduler :
    ℕ
    → ℕ
    → Process
    → (ℕ → Option ℕ)
    → ℕ
    → ℕ
    → ℕ
    → Bool
    → Bytes
    → Thread.System
    → Result (System × Thread.System)
unfolding new_scheduler set_name
new_named_scheduler configured run p current t address threads use_caller name w =
    and_then (new_scheduler configured run p current t address threads use_caller name)
      (λ s. ran (s, if use_caller then set_name w t name else w))

abbrev pub thread_name : Bytes → ℕ → Bytes
thread_name name i = name ++ (codes "_" ++ decimal i)

-- The loop of `start`, on the objects of the threads: thread `i` runs `run`, its object stands at
-- `at i`, and `pthread_create` gives the code and the handle `created i`. An exception leaves the
-- loop.
unfoldable pub make_threads :
    (ℕ → ℕ) → ℕ → (ℕ → ℕ × ℕ) → Bytes → ℕ → ℕ → Thread.System → Attempt Thread.System Thread.System
unfolding new_thread
make_threads at run created name i zero w = done w
make_threads at run created name i (suc n) w =
    elim (new_thread w (at i) (some run) (thread_name name i) (created i).0 (created i).1) [
      | failed w' ↦ failed w'
      | done w' ↦ make_threads at run created name (i + 1) n w'
    ]

-- What the loop leaves, from thread `i` on.
pub record IsMade (at : ℕ → ℕ) (name : Bytes) (i n : ℕ) (w w' : Thread.System) : Type 0 where
  pub named : (j : ℕ) → i ≤ j → j < i + n → (w'.object (at j)).name ≡ thread_name name j
  pub rest : (q : ℕ) → ((j : ℕ) → i ≤ j → q ≢ at j) → w'.object q ≡ w.object q

thread_name-some : (name : Bytes) (i : ℕ) → is_empty (thread_name name i) ≡ false
thread_name-some [] i = refl
thread_name-some (c ∷ cs) i = refl

abbrev fresh_thread : ℕ → ℕ → Bytes → Thread.Thread
fresh_thread run handle name = record {
  id = none;
  handle = some handle;
  cb = some run;
  name = name;
}

new_thread_made :
    (w : Thread.System) (p run code handle : ℕ) (name : Bytes)
    → code ≡ 0
    → is_empty name ≡ false
    → new_thread w p (some run) name code handle
      ≡ done (Thread.store_object w p (fresh_thread run handle name))
unfolding new_thread
new_thread_made w p run code handle name e n = rw (e, n) refl

make_threads_next :
    (at : ℕ → ℕ) (run : ℕ) (created : ℕ → ℕ × ℕ) (name : Bytes) (i n : ℕ) (w w1 : Thread.System)
    → new_thread w (at i) (some run) (thread_name name i) (created i).0 (created i).1 ≡ done w1
    → make_threads at run created name i (suc n) w ≡ make_threads at run created name (i + 1) n w1
unfolding make_threads
make_threads_next at run created name i n w w1 e =
    ap
      (λ r. elim r as (λ z. Attempt Thread.System Thread.System) [
        | failed w' ↦ failed w'
        | done w' ↦ make_threads at run created name (i + 1) n w'
      ])
      e

module _ (at : ℕ → ℕ) (injective : (i j : ℕ) → at i ≡ at j → i ≡ j) where
  -- If every `pthread_create` succeeds, then the loop makes all threads, each under its own name.
  pub make_threads-IsMade :
      (run : ℕ) (created : ℕ → ℕ × ℕ) (name : Bytes) (i n : ℕ) (w : Thread.System)
      → ((j : ℕ) → (created j).0 ≡ 0)
      → (w' : Thread.System) × (make_threads at run created name i n w ≡ done w')
        × IsMade at name i n w w'
  unfolding make_threads
  make_threads-IsMade run created name i zero w ok =
      (w, refl, record { named = λ j l u. absurd (omega (arith, l, u)); rest = λ q f. refl })
  make_threads-IsMade run created name i (suc n) w ok =
      let x = fresh_thread run (created i).1 (thread_name name i) in
      let w1 = Thread.store_object w (at i) x in
      let (w', e, m) = make_threads-IsMade run created name (i + 1) n w1 ok in
      let first : w'.object (at i) ≡ x =
        m.rest (at i) (λ j l k. omega (arith, l, injective i j k)) ∙ ground arith in
      (
        w',
        make_threads_next at run created name i n w w1 (
              new_thread_made w (at i) run (created i).0 (created i).1 (thread_name name i) (ok i)
                (thread_name-some name i))
            ∙ e,
        record {
          named = λ j l u. elim (Bool-cases (i == j)) [
            | inl k ↦ rw (← (==_iff i j).0 k) (ap (λ y. y.name) first)
            | inr k ↦ m.named j (ground (arith, l, k)) (omega (arith, u))
          ];
          rest = λ q f.
              m.rest q (λ j l. f j (omega (arith, l)))
              ∙ (let ne = f i (omega arith) in ground (arith, ne));
        },
      )
