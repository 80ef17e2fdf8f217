-- ===== src/Mutex/Cas/Exclusion.antt =====
-- Two threads never hold the lock at once, and the lock is never lost.
use simple_http_server.Base.{
  ℕ, ◌≡◌, Bool, true, false, List, [], ◌∷◌, arith, Bool-cases, inl, inr, ◌⊎◌,
}
use simple_http_server.Mutex.Cas.{
  Phase, absent, waiting, locked, unlocked, tried, Action, test, System, initial, act, step, run,
}

-- The thread holds the lock.
abbrev pub holds : Phase → Bool
holds locked = true
holds tried = true
holds absent = false
holds waiting = false
holds unlocked = false

-- At most one thread holds the lock, and one does exactly if the flag is set.
pub record IsValid (s : System) : Type 0 where
  pub unique : (i j : ℕ) → holds (s.phase i) ≡ true → holds (s.phase j) ≡ true → i ≡ j
  pub flagged : (i : ℕ) → holds (s.phase i) ≡ true → s.flag ≡ true
  pub owned : s.flag ≡ true → (i : ℕ) × (holds (s.phase i) ≡ true)

-- What an action does to the flag and to the thread's hold of the lock: nothing, or it takes the
-- free lock, or it gives up the lock that the thread holds.
abbrev Moves : Bool → Bool → Bool → Bool → Type 0
Moves flag held flag' held' =
    ((flag' ≡ flag) × (held' ≡ held))
    ⊎ ((flag ≡ false) × (held ≡ false) × (flag' ≡ true) × (held' ≡ true))
    ⊎ ((held ≡ true) × (flag' ≡ false) × (held' ≡ false))

act-Moves :
    (flag : Bool) (p : Phase) (a : Action)
    → Moves flag (holds p) (act flag p a).0 (holds (act flag p a).1)
unfolding act
act-Moves flag p a = ground arith

step-IsValid : (s : System) (i : ℕ) (a : Action) → IsValid s → IsValid (step s i a)
unfolding step
step-IsValid s i a v = record {
  unique = λ j k hj hk. ground (
    arith,
    act-Moves s.flag (s.phase i) a,
    v.unique j k,
    v.unique j i,
    v.unique k i,
    v.flagged j,
    v.flagged k,
  );
  flagged = λ j hj. ground (arith, act-Moves s.flag (s.phase i) a, v.flagged j, v.unique j i);
  owned = λ e. elim (act-Moves s.flag (s.phase i) a) [
    | inl (same_flag, same_hold) ↦
        let (j, hj) = v.owned (ground (arith, e, same_flag)) in (j, ground (arith, hj, same_hold))
    | inr (inl (was, had, now, has)) ↦ (i, ground (arith, has))
    | inr (inr (had, now, has)) ↦ absurd (ground (arith, e, now))
  ];
}

initial-IsValid : IsValid initial
unfolding initial
initial-IsValid = record {
  unique = λ i j hi hj. ground (arith, hi);
  flagged = λ i hi. ground (arith, hi);
  owned = λ e. ground (arith, e);
}

pub run-IsValid : (s : System) (steps : List (ℕ × Action)) → IsValid s → IsValid (run s steps)
unfolding run
run-IsValid s [] v = v
run-IsValid s ((i, a) ∷ rest) v = run-IsValid (step s i a) rest (step-IsValid s i a v)

-- However the steps of the threads follow each other, from a lock that none of them uses, at most
-- one thread holds the lock, be it by a scoped lock or by `try_lock`.
pub mutual_exclusion :
    (steps : List (ℕ × Action)) (i j : ℕ)
    → holds ((run initial steps).phase i) ≡ true
    → holds ((run initial steps).phase j) ≡ true
    → i ≡ j
mutual_exclusion steps i j hi hj = (run-IsValid initial steps initial-IsValid).unique i j hi hj

free_test :
    (s : System) (i : ℕ) → s.phase i ≡ waiting → s.flag ≡ false → (step s i test).phase i ≡ locked
unfolding step act
free_test s i e free = rw (e, free) (ground arith)

-- After any steps, a thread that is in the loop of `lock` gets the lock at its next test, or some
-- thread holds the lock: the lock is never lost.
pub no_deadlock :
    (steps : List (ℕ × Action)) (i : ℕ)
    → (run initial steps).phase i ≡ waiting
    → ((step (run initial steps) i test).phase i ≡ locked)
      ⊎ ((j : ℕ) × (holds ((run initial steps).phase j) ≡ true))
no_deadlock steps i e =
    let v = run-IsValid initial steps initial-IsValid in
    elim (Bool-cases (run initial steps).flag) [
      | inl set ↦ inr (v.owned set)
      | inr free ↦ inl (free_test (run initial steps) i e free)
    ]
