-- ===== src/Locks/Calls.antt =====
-- Threads that call into src/_log, src/config and src/scheduler.
use simple_http_server.Base.{
  ℕ, ◌≡◌, Bool, true, refl, List, [], ◌∷◌, ◌++◌, append-nil, All, ◌∙◌, sym, ap, arith,
}
use simple_http_server.Base.Bytes.{Bytes}
use simple_http_server.Log.Level.{LogLevel}
use simple_http_server.Log.Event.{LogEvent}
use simple_http_server.Log.Formatter.{Calendar}
use simple_http_server.Log.Logger.{Heap, Site}
use simple_http_server.Log.Manager.{Manager}
use simple_http_server.Log.Define.{LogDefine}
use simple_http_server.Config.Registry.{VarClass, Registry}
use simple_http_server.Locks.{Trace, Thread, is_ordered, IsOrdered, IsDone, run}
use simple_http_server.Locks.Fits.{Fits, Fits-nil, Fits-append, Fits-le}
use simple_http_server.Locks.Log.{
  at_logger, at_appender, logger_yaml_locks, manager_yaml_locks, get_root_locks, get_logger_locks,
  log_locks, stream_locks, root_stream_locks, conf_changed_locks,
}
use simple_http_server.Locks.Log.Ordered.{
  Fits-at_logger, Fits-at_appender, Fits-logger_yaml, Fits-manager_yaml, Fits-get_root,
  Fits-get_logger, Fits-log, Fits-stream, Fits-conf_changed,
}
use simple_http_server.Locks.Config.{
  read_var, write_var, set_value_locks, find_locks, visit_locks, lookup_or_new_locks, queue_locks,
  start_locks, Fits-read_var, Fits-write_var, Fits-set_value, Fits-find, Fits-visit,
  Fits-lookup_or_new, Fits-queue, Fits-start,
}
use simple_http_server.Locks.Progress.{run_finishes}

-- A call into src/_log, with the state that it finds there.
pub data LogCall : Type 1 where
  log : Calendar → ℕ → Heap → ℕ → LogLevel → LogEvent → LogCall
  stream : Calendar → ℕ → Heap → ℕ → LogLevel → Site → Bytes → LogCall
  root_stream : Calendar → ℕ → Manager → LogLevel → Site → Bytes → LogCall
  get_root : LogCall
  get_logger : Manager → Bytes → LogCall
  logger_member : ℕ → LogCall
  appender_member : ℕ → LogCall
  logger_yaml : Heap → ℕ → LogCall
  manager_yaml : Manager → LogCall
  conf_changed : Calendar → ℕ → Site → Manager → List LogDefine → List LogDefine → LogCall

unfoldable pub log_call_locks : LogCall → Trace
log_call_locks (log cal fuel h p level event) = log_locks cal fuel h p level event
log_call_locks (stream cal fuel h p level site text) =
    stream_locks cal [] [] fuel h p level site text
log_call_locks (root_stream cal fuel m level site text) =
    root_stream_locks cal [] fuel m level site text
log_call_locks get_root = get_root_locks
log_call_locks (get_logger m name) = get_logger_locks m name
log_call_locks (logger_member p) = at_logger p
log_call_locks (appender_member a) = at_appender a
log_call_locks (logger_yaml h p) = logger_yaml_locks h p
log_call_locks (manager_yaml m) = manager_yaml_locks m
log_call_locks (conf_changed cal fuel site m old new) = conf_changed_locks cal fuel site m old new

unfoldable pub log_calls_locks : List LogCall → Trace
log_calls_locks [] = []
log_calls_locks (c ∷ cs) = log_call_locks c ++ log_calls_locks cs

-- A call on a variable, or into src/_log. The callbacks of `setValue` make calls into src/_log.
pub data VarCall : Type 1 where
  logging : LogCall → VarCall
  get : ℕ → VarCall
  change : ℕ → VarCall
  set_value : ℕ → Bool → List LogCall → Bool → VarCall

unfoldable pub var_call_locks : VarCall → Trace
unfolding log_call_locks log_calls_locks
var_call_locks (logging c) = log_call_locks c
var_call_locks (get v) = read_var v
var_call_locks (change v) = write_var v
var_call_locks (set_value v same heard threw) = set_value_locks v same (log_calls_locks heard) threw

unfoldable pub var_calls_locks : List VarCall → Trace
unfolding var_call_locks
var_calls_locks [] = []
var_calls_locks (c ∷ cs) = var_call_locks c ++ var_calls_locks cs

-- Any call. The callback of `Visit` makes calls on variables, and `start` of a scheduler logs.
pub data Call : Type 1 where
  on_var : VarCall → Call
  find : Call
  visit : List VarCall → Call
  lookup_or_new :
      {V W : Type 0}
      → Calendar
      → ℕ
      → Manager
      → Site
      → Bytes
      → VarClass V W
      → Registry V
      → ℕ
      → Bytes
      → Call
  queue : ℕ → Call
  start : ℕ → List LogCall → Call

unfoldable pub call_locks : Call → Trace
unfolding var_call_locks var_calls_locks log_calls_locks
call_locks (on_var c) = var_call_locks c
call_locks find = find_locks
call_locks (visit cs) = visit_locks (var_calls_locks cs)
call_locks (lookup_or_new cal fuel m site text class r type name) =
    lookup_or_new_locks cal fuel m site text class r type name
call_locks (queue s) = queue_locks s
call_locks (start s cs) = start_locks s (log_calls_locks cs)

unfoldable pub calls_locks : List Call → Trace
unfolding call_locks
calls_locks [] = []
calls_locks (c ∷ cs) = call_locks c ++ calls_locks cs

-- Threads without locks that each make some calls.
unfoldable pub threads : List (List Call) → List Thread
unfolding calls_locks
threads [] = []
threads (cs ∷ css) = record { held = []; rest = calls_locks cs } ∷ threads css

Fits-log_call : (c : LogCall) → Fits 3 (log_call_locks c)
unfolding log_call_locks
Fits-log_call (log cal fuel h p level event) =
    Fits-le 3 4 _ (omega arith) (Fits-log cal fuel h p level event)
Fits-log_call (stream cal fuel h p level site text) =
    Fits-stream cal 3 [] [] fuel h p level site text (omega arith) (Fits-nil 3) (Fits-nil 3)
Fits-log_call (root_stream cal fuel m level site text) =
    Fits-stream cal 3 get_root_locks [] fuel m.heap m.root level site text (omega arith)
      Fits-get_root (Fits-nil 3)
Fits-log_call get_root = Fits-get_root
Fits-log_call (get_logger m name) = Fits-get_logger m name
Fits-log_call (logger_member p) = Fits-at_logger 3 p (omega arith)
Fits-log_call (appender_member a) = Fits-at_appender 3 a (omega arith)
Fits-log_call (logger_yaml h p) = Fits-le 3 4 _ (omega arith) (Fits-logger_yaml h p)
Fits-log_call (manager_yaml m) = Fits-manager_yaml m
Fits-log_call (conf_changed cal fuel site m old new) = Fits-conf_changed cal fuel site m old new

Fits-log_calls : (cs : List LogCall) → Fits 3 (log_calls_locks cs)
unfolding log_calls_locks
Fits-log_calls [] = Fits-nil 3
Fits-log_calls (c ∷ cs) = Fits-append 3 _ _ (Fits-log_call c) (Fits-log_calls cs)

Fits-var_call : (c : VarCall) → Fits 2 (var_call_locks c)
unfolding var_call_locks
Fits-var_call (logging c) = Fits-le 2 3 _ (omega arith) (Fits-log_call c)
Fits-var_call (get v) = Fits-read_var 2 v (omega arith)
Fits-var_call (change v) = Fits-write_var 2 v (omega arith)
Fits-var_call (set_value v same heard threw) =
    Fits-set_value v same threw (log_calls_locks heard) (Fits-log_calls heard)

Fits-var_calls : (cs : List VarCall) → Fits 2 (var_calls_locks cs)
unfolding var_calls_locks
Fits-var_calls [] = Fits-nil 2
Fits-var_calls (c ∷ cs) = Fits-append 2 _ _ (Fits-var_call c) (Fits-var_calls cs)

Fits-call : (c : Call) → Fits 0 (call_locks c)
unfolding call_locks
Fits-call (on_var c) = Fits-le 0 2 _ (omega arith) (Fits-var_call c)
Fits-call find = Fits-le 0 1 _ (omega arith) Fits-find
Fits-call (visit cs) = Fits-le 0 1 _ (omega arith) (Fits-visit _ (Fits-var_calls cs))
Fits-call (lookup_or_new cal fuel m site text class r type name) =
    Fits-le 0 1 _ (omega arith) (Fits-lookup_or_new cal fuel m site text class r type name)
Fits-call (queue s) = Fits-queue s
Fits-call (start s cs) = Fits-start s _ (Fits-le 1 3 _ (omega arith) (Fits-log_calls cs))

Fits-calls : (cs : List Call) → Fits 0 (calls_locks cs)
unfolding calls_locks
Fits-calls [] = Fits-nil 0
Fits-calls (c ∷ cs) = Fits-append 0 _ _ (Fits-call c) (Fits-calls cs)

Fits-is_ordered : (t : Trace) → Fits 0 t → is_ordered [] t ≡ true
unfolding Fits is_ordered
Fits-is_ordered t f = ap (λ u. is_ordered [] u) (sym (append-nil t)) ∙ f [] [] refl

threads-IsOrdered : (css : List (List Call)) → All IsOrdered (threads css)
unfolding threads IsOrdered
threads-IsOrdered [] = tt
threads-IsOrdered (cs ∷ css) =
    (Fits-is_ordered (calls_locks cs) (Fits-calls cs), threads-IsOrdered css)

-- Any number of threads make any calls into src/_log, src/config and src/scheduler one after the
-- other, in any states, where a listener of a variable makes calls into src/_log alone and the
-- callback of `Visit` makes calls on variables and into src/_log. However the threads' steps, each
-- the beginning or the end of a scoped lock, have followed each other, and a thread waits while
-- another scoped lock stands in its way, the steps can go on to the end of all threads: no
-- threads wait for each other in a circle, and none waits for itself.
pub run-threads :
    (css : List (List Call)) (is : List ℕ)
    → (js : List ℕ) × All IsDone (run (threads css) (is ++ js))
run-threads css is = run_finishes (threads css) is (threads-IsOrdered css)
