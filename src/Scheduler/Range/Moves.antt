-- ===== src/Scheduler/Range/Moves.antt =====
-- A range hands over what it holds.
use simple_http_server.Base.{ℕ, List, Option, none, map}
use simple_http_server.Scheduler.{Task, Scheduler}
use simple_http_server.Scheduler.Range.{Kind, take_from}

-- The tasks of what a range holds, null pointers included.
abbrev pub tasks_for : Kind → List (Option ℕ) → List Task
tasks_for k fs = map (λ f. (take_from k f none).0) fs

abbrev pub emptied : List (Option ℕ) → List (Option ℕ)
emptied fs = map (λ f. none) fs
