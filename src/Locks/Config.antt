-- ===== src/Locks/Config.antt =====
-- The scoped locks of the calls into src/config, and of those into src/scheduler.
use simple_http_server.Base.{ℕ, ◌≤◌, Bool, [], ◌++◌, if◌then◌else◌, ◌==◌, arith}
use simple_http_server.Base.Bytes.{Bytes}
use simple_http_server.Base.Dict.{find}
use simple_http_server.Log.Level.{LogLevel, info, error}
use simple_http_server.Log.Formatter.{Calendar}
use simple_http_server.Log.Logger.{Site}
use simple_http_server.Log.Manager.{Manager}
use simple_http_server.Config.Registry.{VarClass, Registry, is_valid_name}
use simple_http_server.Locks.{
  Trace, locked, read_locked, on_found, config_lock, var_lock, scheduler_lock,
}
use simple_http_server.Locks.Fits.{
  Fits, Fits-nil, Fits-append, Fits-le, Fits-if, Fits-scoped, Fits-locked_alone, Fits-on_found,
}
use simple_http_server.Locks.Log.{get_root_locks, root_stream_locks}
use simple_http_server.Locks.Log.Ordered.{Fits-stream, Fits-get_root}

-- `toString` and `getListener` of the variable at `v`; `addListener`, `delListener` and
-- `clearListener`.
abbrev pub read_var : ℕ → Trace
read_var v = read_locked (var_lock v) []

abbrev pub write_var : ℕ → Trace
write_var v = locked (var_lock v) []

-- `setValue`: the callbacks take the locks `heard` under the first lock, which is shared, and
-- unless one of them throws the value is set under a second one.
unfoldable pub set_value_locks : ℕ → Bool → Trace → Bool → Trace
set_value_locks v same heard threw =
    if same
    then read_var v
    else read_locked (var_lock v) heard ++ (if threw then [] else write_var v)

-- `LookupBase`, and `Lookup(name)`
abbrev pub find_locks : Trace
find_locks = read_locked config_lock []

-- `Visit`, where the callback takes the locks `heard`.
unfoldable pub visit_locks : Trace → Trace
visit_locks heard = read_locked config_lock heard

module _ (cal : Calendar) (fuel : ℕ) (m : Manager) (site : Site) (text : Bytes) where
  -- Behind the look-up of the name in `Lookup(default_value, name, description)`: the message that
  -- a variable has another type contains the variable's text.
  abbrev pub found_locks : {V W : Type 0} → VarClass V W → Registry V → ℕ → ℕ → Trace
  found_locks class r type p =
      if class.type_of (r.var p) == type
      then root_stream_locks cal [] fuel m info site text
      else root_stream_locks cal (read_var p) fuel m error site text

  unfoldable pub lookup_or_new_locks :
      {V W : Type 0} → VarClass V W → Registry V → ℕ → Bytes → Trace
  lookup_or_new_locks class r type name =
      let missing =
        if is_valid_name name then [] else root_stream_locks cal [] fuel m error site text in
      locked config_lock (on_found (find name r.datas) missing (found_locks class r type))

-- `schedule` and `stopping`
abbrev pub queue_locks : ℕ → Trace
queue_locks s = locked (scheduler_lock s) []

-- `start`, in which the constructor of a thread takes the locks `made` when it logs an error.
unfoldable pub start_locks : ℕ → Trace → Trace
start_locks s made = locked (scheduler_lock s) made

pub Fits-read_var : (c v : ℕ) → c ≤ 2 → Fits c (read_var v)
Fits-read_var c v l = Fits-locked_alone c _ l (omega arith)

pub Fits-write_var : (c v : ℕ) → c ≤ 2 → Fits c (write_var v)
Fits-write_var c v l = Fits-locked_alone c _ l (omega arith)

pub Fits-set_value :
    (v : ℕ) (same threw : Bool) (heard : Trace)
    → Fits 3 heard
    → Fits 2 (set_value_locks v same heard threw)
unfolding set_value_locks
Fits-set_value v same threw heard f =
    let written = Fits-write_var 2 v (omega arith) in
    Fits-if 2 same _ _ (Fits-read_var 2 v (omega arith)) (
      Fits-append 2 _ _ (Fits-scoped 2 _ heard (omega arith) (omega arith) f)
        (Fits-if 2 threw [] _ (Fits-nil 2) written))

pub Fits-find : Fits 1 find_locks
Fits-find = Fits-locked_alone 1 _ (omega arith) (omega arith)

pub Fits-visit : (heard : Trace) → Fits 2 heard → Fits 1 (visit_locks heard)
unfolding visit_locks
Fits-visit heard f = Fits-scoped 1 _ heard (omega arith) (omega arith) f

module _ (cal : Calendar) (fuel : ℕ) (m : Manager) (site : Site) (text : Bytes) where
  Fits-said :
      (streamed : Trace) (level : LogLevel)
      → Fits 2 streamed
      → Fits 2 (root_stream_locks cal streamed fuel m level site text)
  Fits-said streamed level fs =
      Fits-stream cal 2 get_root_locks streamed fuel m.heap m.root level site text (omega arith)
        (Fits-le 2 3 get_root_locks (omega arith) Fits-get_root) fs

  pub Fits-lookup_or_new :
      {V W : Type 0} (class : VarClass V W) (r : Registry V) (type : ℕ) (name : Bytes)
      → Fits 1 (lookup_or_new_locks cal fuel m site text class r type name)
  unfolding lookup_or_new_locks
  Fits-lookup_or_new class r type name = Fits-scoped 1 _ _ (omega arith) (omega arith) (
      Fits-on_found 2 (find name r.datas) _ _
        (Fits-if 2 (is_valid_name name) [] _ (Fits-nil 2) (Fits-said [] error (Fits-nil 2)))
        (λ p.
          Fits-if 2 (class.type_of (r.var p) == type) _ _ (Fits-said [] info (Fits-nil 2))
            (Fits-said (read_var p) error (Fits-read_var 2 p (omega arith)))))

pub Fits-queue : (s : ℕ) → Fits 0 (queue_locks s)
Fits-queue s = Fits-locked_alone 0 _ (omega arith) (omega arith)

pub Fits-start : (s : ℕ) (made : Trace) → Fits 1 made → Fits 0 (start_locks s made)
unfolding start_locks
Fits-start s made f = Fits-scoped 0 _ made (omega arith) (omega arith) f
