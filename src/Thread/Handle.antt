-- ===== src/Thread/Handle.antt =====
-- A thread of the system is given back once.
use simple_http_server.Base.{
  ℕ, ◌≡◌, refl, Bool, true, false, ◌||◌, List, [], ◌∷◌, none, some, if◌then◌else◌, ◌==◌, arith,
  Bool-cases, inl, inr,
}
use simple_http_server.Thread.{joined, detached, System, join, destroy}
use simple_http_server.Mutex.{Attempt, done, failed}

-- The system behind a call, which may have thrown.
abbrev pub caught : Attempt System System → System
caught (done s) = s
caught (failed s) = s

-- Calls of `join`, each with the code that `pthread_join` gives if it is called.
unfoldable pub joins : System → ℕ → List ℕ → System
joins s p [] = s
joins s p (code ∷ codes) = joins (caught (join s p code)) p codes

-- One of the calls gives 0.
unfoldable pub succeeds : List ℕ → Bool
succeeds [] = false
succeeds (code ∷ codes) = (code == 0) || succeeds codes

joins-over :
    (s : System) (p : ℕ) (codes : List ℕ) → (s.object p).handle ≡ none → joins s p codes ≡ s
unfolding joins join
joins-over s p [] e = refl
joins-over s p (code ∷ codes) e = rw (e) (joins-over s p codes e)

destroy-over : (s : System) (p : ℕ) → (s.object p).handle ≡ none → destroy s p ≡ s
unfolding destroy
destroy-over s p e = rw (e) refl

join-failed :
    (s : System) (p h code : ℕ)
    → (s.object p).handle ≡ some h
    → (code == 0) ≡ false
    → caught (join s p code) ≡ s
unfolding join
join-failed s p h code e n = rw (e, n) refl

join-done :
    (s : System) (p h code : ℕ)
    → (s.object p).handle ≡ some h
    → (code == 0) ≡ true
    → (((caught (join s p code)).object p).handle ≡ none)
      × ((caught (join s p code)).releases ≡ joined h ∷ s.releases)
unfolding join
join-done s p h code e z = rw (e, z) ((ground arith, refl))

-- If the thread behind an object has not been given back, then after any calls of `join`, which may
-- fail, and the destructor it has been given back exactly once: joined if a call succeeded, and
-- else detached.
pub releases-destroy :
    (s : System) (p h : ℕ) (codes : List ℕ)
    → (s.object p).handle ≡ some h
    → (destroy (joins s p codes) p).releases
      ≡ (if succeeds codes then joined h else detached h) ∷ s.releases
unfolding joins succeeds
releases-destroy s p h [] e = unfold destroy in rw (e) refl
releases-destroy s p h (code ∷ codes) e = elim (Bool-cases (code == 0)) [
  | inl z ↦
      let (over, given) = join-done s p h code e z in
      let s' = caught (join s p code) in
      rw (z, joins-over s' p codes over, destroy-over s' p over) given
  | inr n ↦ rw (join-failed s p h code e n, n) (releases-destroy s p h codes e)
]
