-- ===== src/Fiber/Live.antt =====
-- How many fibers there are, their identifiers, and which of them can be given back.
use simple_http_server.Base.{
  ℕ, suc, ◌+◌, ◌-◌, ◌%◌, ◌^◌, ◌<◌, ◌≤◌, ◌≡◌, refl, Bool, true, false, List, [], ◌∷◌, Option, length,
  arith, if◌then◌else◌, ◌==◌, Option-cases, inl, inr, ap, Bool-cases, All,
}
use simple_http_server.Fiber.{
  Process, ran, assertion_failed, set_this, new_main, new_fiber, get_this, destroy, total_fibers,
  erase, is_free,
}

-- `TotalFibers` is the number of the fibers that are allocated, as a 64-bit integer; addresses
-- are fresh, and identifiers of fibers with a stack are positive, at most the last one given,
-- and distinct.
pub record IsValid (p : Process) : Type 0 where
  pub counted : total_fibers p ≡ length p.live % 2 ^ 64
  pub allocated : All (λ f. f < p.next_fiber) p.live
  pub numbered : (f : ℕ) → f < p.next_fiber → (p.fiber f).stack ≡ true → (p.fiber f).id ≤ p.fiber_id
  pub positive : (f : ℕ) → f < p.next_fiber → (p.fiber f).stack ≡ true → 0 < (p.fiber f).id
  pub distinct :
      (f g : ℕ)
      → f < p.next_fiber
      → g < p.next_fiber
      → (p.fiber f).stack ≡ true
      → (p.fiber g).stack ≡ true
      → (p.fiber f).id ≡ (p.fiber g).id
      → f ≡ g

-- The address is in the list.
unfoldable pub has : ℕ → List ℕ → Bool
has f [] = false
has f (g ∷ gs) = if g == f then true else has f gs

All-suc : (n : ℕ) (fs : List ℕ) → All (λ f. f < n) fs → All (λ f. f < n + 1) fs
All-suc n [] h = h
All-suc n (f ∷ fs) (h, hs) = (omega (arith, h), All-suc n fs hs)

All-erase : (n f : ℕ) (fs : List ℕ) → All (λ g. g < n) fs → All (λ g. g < n) (erase f fs)
All-erase n f [] h = h
All-erase n f (g ∷ gs) (h, hs) = elim (Bool-cases (g == f)) [
  | inl e ↦ rw (e) hs
  | inr e ↦ rw (e) ((h, All-erase n f gs hs))
]

length-erase : (f : ℕ) (fs : List ℕ) → has f fs ≡ true → suc (length (erase f fs)) ≡ length fs
unfolding has
length-erase f [] h = ground (arith, h)
length-erase f (g ∷ gs) h = elim (Bool-cases (g == f)) [
  | inl e ↦ rw (e) refl
  | inr e ↦ rw (e) (ap suc (length-erase f gs (ground (arith, e, h))))
]

-- Up to the last value of the 64-bit counter of identifiers, making a fiber keeps a process valid:
-- `TotalFibers` is the number of allocated fibers, as a 64-bit integer, and fibers with a stack
-- have positive, distinct identifiers.
pub new_fiber-IsValid :
    (configured : ℕ) (p : Process) (cb : Option ℕ) (stack_size : ℕ) (use_caller : Bool)
    → p.fiber_id + 1 < 2 ^ 64
    → IsValid p
    → IsValid (new_fiber configured p cb stack_size use_caller).0
unfolding new_fiber total_fibers
new_fiber-IsValid configured p cb stack_size use_caller h v = record {
  counted = omega (arith, v.counted);
  allocated = (omega arith, All-suc p.next_fiber p.live v.allocated);
  numbered = λ f hf hs. ground (arith, v.numbered f, h);
  positive = λ f hf hs. ground (arith, v.positive f, h);
  distinct = λ f g hf hg sf sg e.
      ground (arith, v.distinct f g, v.numbered f, v.numbered g, h, hf, hg, sf, sg, e);
}

new_main-IsValid : (p : Process) (t : ℕ) → IsValid p → IsValid (new_main p t)
unfolding new_main set_this total_fibers
new_main-IsValid p t v = record {
  counted = omega (arith, v.counted);
  allocated = (omega arith, All-suc p.next_fiber p.live v.allocated);
  numbered = λ f hf hs. ground (arith, v.numbered f);
  positive = λ f hf hs. ground (arith, v.positive f);
  distinct = λ f g hf hg sf sg e. ground (arith, v.distinct f g, hf, hg, sf, sg, e);
}

-- `GetThis`, which makes the main fiber of a thread when the thread has no current fiber, keeps a
-- process valid.
pub get_this-IsValid : (p : Process) (t : ℕ) → IsValid p → IsValid (get_this p t).0
unfolding get_this total_fibers
get_this-IsValid p t v = elim (Option-cases (p.locals t).fiber) [
  | inl e ↦
      let n = new_main-IsValid p t v in
      rw (e, get_this)
        (record {
          counted = n.counted;
          allocated = n.allocated;
          numbered = n.numbered;
          positive = n.positive;
          distinct = n.distinct;
        })
  | inr (f, e) ↦ rw (e, get_this) v
]

-- What the destructor leaves.
freed : Process → ℕ → Process
freed p f = record p {
  fiber_count = (p.fiber_count + (2 ^ 64 - 1)) % 2 ^ 64;
  live = erase f p.live;
}

freed-IsValid : (p : Process) (f : ℕ) → has f p.live ≡ true → IsValid p → IsValid (freed p f)
unfolding freed total_fibers
freed-IsValid p f h v = record {
  counted = omega (arith, v.counted, length-erase f p.live h);
  allocated = All-erase p.next_fiber f p.live v.allocated;
  numbered = v.numbered;
  positive = v.positive;
  distinct = v.distinct;
}

-- An allocated fiber with a stack in one of the states TERM, EXCEPT and INIT can be destroyed: no
-- other fiber changes, the fiber is given back, and the process stays valid.
pub destroy-IsValid :
    (p : Process) (t f : ℕ)
    → (p.fiber f).stack ≡ true
    → is_free (p.fiber f).state ≡ true
    → has f p.live ≡ true
    → IsValid p
    → (q : Process) × (destroy p t f ≡ ran q)
      × (q.fiber ≡ p.fiber)
      × (q.live ≡ erase f p.live)
      × IsValid q
unfolding destroy freed
destroy-IsValid p t f hs hf h v = (freed p f, rw (hs, hf) refl, refl, refl, freed-IsValid p f h v)

-- A fiber with a stack that is in none of the states TERM, EXCEPT and INIT cannot be destroyed.
pub destroy_suspended :
    (p : Process) (t f : ℕ)
    → (p.fiber f).stack ≡ true
    → is_free (p.fiber f).state ≡ false
    → destroy p t f ≡ assertion_failed
unfolding destroy
destroy_suspended p t f hs hf = rw (hs, hf) refl
