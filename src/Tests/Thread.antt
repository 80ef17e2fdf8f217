-- ===== src/Tests/Thread.antt =====
-- Tests of threads.
use simple_http_server.Base.{false, ◌≡◌, refl, ◌≤◌, List, [], ◌∷◌, ◌++◌, none, some, length, update}
use simple_http_server.Base.Bytes.{Bytes, codes}
use simple_http_server.Mutex.{done}
use simple_http_server.Thread.{Thread, System, joined, first_locals, new_thread, run, destroy}
use simple_http_server.Thread.Name.{set_names, kernel_name-run}
use simple_http_server.Thread.{closed, waited, set_name}
use simple_http_server.Thread.Windows
use simple_http_server.Thread.Windows.Same.{
  Op, create, begin, rename, wait_for, drop, IsSame, posix_steps, windows_steps, windows_step,
  windows_steps-posix_steps,
}
use simple_http_server.Thread.Handle.{joins, succeeds, releases-destroy}

abbrev no_object : Thread
no_object = record { id = none; handle = none; cb = none; name = [] }

abbrev no_thread : System
no_thread = record {
  object = λ p. no_object;
  locals = λ t. first_locals;
  kernel_name = λ t. [];
  releases = [];
}

-- The object at 5 of a worker with handle 9 and function 3.
abbrev worker_name : Bytes
worker_name = codes "worker of the pool"

abbrev worker : System
worker = record no_thread {
  object =
      update (λ p. no_object) 5
        (record { id = none; handle = some 9; cb = some 3; name = worker_name });
}

abbrev names : List Bytes
names = [] ∷ codes "busy" ∷ []

new_thread-worker : new_thread no_thread 5 (some 3) worker_name 0 9 ≡ done worker
unfolding new_thread
new_thread-worker = refl

kernel_name-run_example :
    (length ((set_names (run worker 7 5).0 7 names).kernel_name 7) ≤ 15)
    × (rest : Bytes) × ((set_names (run worker 7 5).0 7 names).kernel_name 7 ++ rest ≡ worker_name)
kernel_name-run_example = kernel_name-run worker 5 7 names

releases-destroy_example : (destroy (joins worker 5 (3 ∷ 0 ∷ 0 ∷ [])) 5).releases ≡ joined 9 ∷ []
unfolding succeeds
releases-destroy_example = releases-destroy worker 5 9 (3 ∷ 0 ∷ 0 ∷ []) refl

abbrev ops : List Op
ops =
    create 5 (some 3) worker_name 9 ∷ begin 7 5 ∷ rename 7 (codes "busy") ∷ wait_for 5 ∷ drop 5 ∷ []

windows_steps-posix_steps_example : IsSame (posix_steps no_thread ops) (windows_steps no_thread ops)
windows_steps-posix_steps_example = windows_steps-posix_steps no_thread ops

-- The one handle is closed once.
closed_once : (windows_steps no_thread ops).releases ≡ closed 9 ∷ waited 9 ∷ []
unfolding windows_steps windows_step Windows.new_thread Windows.run Windows.join Windows.destroy
    set_name
closed_once = refl

-- If the description cannot be set, the function is not called.
not_described : (Windows.run worker 7 5 false).1 ≡ none
unfolding Windows.run
not_described = refl
