-- ===== src/Log/Manager/Invariant.antt =====
-- The registry of loggers: names, roots, and what `getLogger` keeps.
use simple_http_server.Base.{
  ℕ, ◌<◌, ◌≡◌, refl, ◌≢◌, none, some, arith, Option-cases, inl, inr, if◌then◌else◌,
}
use simple_http_server.Base.Bytes.{Bytes, same, same_iff, same_refl}
use simple_http_server.Base.Dict.{find, find-assign}
use simple_http_server.Log.Appender.{World}
use simple_http_server.Log.Manager.{Manager, root_name, new_manager, get_logger, get_or_create}

-- The root logger is allocated and has no root; every registered logger is allocated, carries
-- the name that it is registered under, and falls back on the root logger.
pub record IsValid (m : Manager) : Type 0 where
  pub root_allocated : m.root < m.heap.next_logger
  pub root_registered : find root_name m.loggers ≡ some m.root
  pub root_has_no_root : (m.heap.logger m.root).root ≡ none
  pub allocated : (name : Bytes) (p : ℕ) → find name m.loggers ≡ some p → p < m.heap.next_logger
  pub named : (name : Bytes) (p : ℕ) → find name m.loggers ≡ some p → (m.heap.logger p).name ≡ name
  pub rooted :
      (name : Bytes) (p : ℕ)
      → find name m.loggers ≡ some p
      → p ≢ m.root
      → (m.heap.logger p).root ≡ some m.root

pub new_manager-IsValid : (w : World) → IsValid (new_manager w)
unfolding new_manager find same
new_manager-IsValid w = record {
  root_allocated = omega arith;
  root_registered = refl;
  root_has_no_root = refl;
  allocated = λ name p e. ground arith;
  named = λ name p e. ground (arith, same_iff root_name name);
  rooted = λ name p e ne. ground arith;
}

-- `getLogger` finds the logger that it has returned before, under that name, and finds every
-- other name as before.
pub find-get_logger :
    (m : Manager) (name other : Bytes)
    → find other (get_logger m name).0.loggers
      ≡ (if same name other then some (get_logger m name).1 else find other m.loggers)
unfolding get_logger
find-get_logger m name other = elim (Option-cases (find name m.loggers)) [
  | inl none_yet ↦
      rw (none_yet, get_logger)
        (unfold get_or_create in find-assign name other m.heap.next_logger m.loggers)
  | inr (p, e) ↦ rw (e, get_logger) (unfold get_or_create in ground (arith, same_iff name other, e))
]

create-IsValid :
    (m : Manager) (name : Bytes)
    → IsValid m
    → find name m.loggers ≡ none
    → IsValid (get_or_create m name none).0
unfolding get_or_create
create-IsValid m name v e = record {
  root_allocated = ground (arith, v.root_allocated);
  root_registered = ground (
    arith,
    find-assign name root_name m.heap.next_logger m.loggers,
    same_iff name root_name,
    v.root_registered,
  );
  root_has_no_root = ground (arith, v.root_has_no_root, v.root_allocated);
  allocated = λ other p f.
      ground (arith, find-assign name other m.heap.next_logger m.loggers, v.allocated other p);
  named = λ other p f. ground (
    arith,
    find-assign name other m.heap.next_logger m.loggers,
    same_iff name other,
    v.allocated other p,
    v.named other p,
  );
  rooted = λ other p f ne. ground (
    arith,
    find-assign name other m.heap.next_logger m.loggers,
    v.allocated other p,
    v.rooted other p,
  );
}

-- `getLogger` keeps the registry valid.
pub get_logger-IsValid : (m : Manager) (name : Bytes) → IsValid m → IsValid (get_logger m name).0
unfolding get_logger
get_logger-IsValid m name v = elim (Option-cases (find name m.loggers)) [
  | inl e ↦ rw (e, get_logger) (create-IsValid m name v e)
  | inr (p, e) ↦ rw (e, get_logger) (unfold get_or_create in v)
]

-- Asked for a registered name, `getLogger` changes nothing, and no call changes a logger that
-- was there before.
pub get_logger_again :
    (m : Manager) (name : Bytes) → let r = get_logger m name in get_logger r.0 name ≡ (r.0, r.1)
unfolding get_logger
get_logger_again m name = rw (get_logger, find_again) (unfold get_or_create in refl)
  where
    find_again : find name (get_logger m name).0.loggers ≡ some (get_logger m name).1
    find_again = rw (find-get_logger m name name, same_refl name) refl

pub logger-get_logger :
    (m : Manager) (name : Bytes) (p : ℕ)
    → p < m.heap.next_logger
    → (get_logger m name).0.heap.logger p ≡ m.heap.logger p
unfolding get_logger
logger-get_logger m name p h = elim (Option-cases (find name m.loggers)) [
  | inl e ↦ rw (e, get_logger) (unfold get_or_create in ground arith)
  | inr (q, e) ↦ rw (e, get_logger) (unfold get_or_create in refl)
]
