-- ===== src/Tests/Locks.antt =====
-- Tests of the locks that calls take together.
use simple_http_server.Base.{ℕ, ◌≡◌, refl, false, List, [], ◌∷◌, ◌++◌, All}
use simple_http_server.Locks.{
  IsDone, run, can_step_in, can_move, is_blocked, conflicts_any, step_in, advance, locked,
  manager_lock, logger_lock, appender_lock, Thread,
}
use simple_http_server.Locks.Log.{
  manager_yaml_locks, logger_yaml_locks, loggers_yaml_locks, appenders_yaml_locks,
}
use simple_http_server.Locks.Config.{write_var, set_value_locks}
use simple_http_server.Locks.Calls.{
  Call, on_var, visit, get, set_value, logging, manager_yaml, conf_changed, threads, run-threads,
}
use simple_http_server.Log.Manager.{new_manager}
use simple_http_server.Log.Logger.{add_appender}
use simple_http_server.Base.Dict.{assign}
use simple_http_server.Tests.Initer.{calendar, site, registry, system_define}

-- One thread changes the configuration, whose listener changes the loggers, and another one
-- visits the variables and writes the loggers as YAML.
abbrev programs : List (List Call)
programs =
    (on_var (
        set_value 1 false (conf_changed calendar 2 site registry [] (system_define ∷ []) ∷ [])
          false)
      ∷ [])
    ∷ (visit (get 1 ∷ []) ∷ on_var (logging (manager_yaml registry)) ∷ [])
    ∷ []

run-threads_example :
    (js : List ℕ) × All IsDone (run (threads programs) ((0 ∷ 1 ∷ 0 ∷ 1 ∷ 1 ∷ []) ++ js))
run-threads_example = run-threads programs (0 ∷ 1 ∷ 0 ∷ 1 ∷ 1 ∷ [])

-- The registry's lock, the root logger's and the appender's, one inside the other.
nested :
    manager_yaml_locks registry
    ≡ locked manager_lock (locked (logger_lock 0) (locked (appender_lock 0) []))
unfolding manager_yaml_locks logger_yaml_locks loggers_yaml_locks appenders_yaml_locks new_manager
    add_appender assign
nested = refl

-- A listener that adds a listener to its own variable.
abbrev own_listener : List Thread
own_listener = record { held = []; rest = set_value_locks 1 false (write_var 1) false } ∷ []

-- It waits for itself.
waits_for_itself : can_step_in (run own_listener (0 ∷ [])) 0 (run own_listener (0 ∷ [])) ≡ false
unfolding run step_in can_step_in can_move is_blocked conflicts_any advance set_value_locks
waits_for_itself = refl
