-- ===== src/Locks/Progress.antt =====
-- Threads that take their locks in the order of the classes never wait for each other in a circle.
use simple_http_server.Base.{
  ℕ, zero, suc, ◌+◌, ◌≤◌, ◌<◌, ◌≡◌, refl, ap, ◌∙◌, ◌⊎◌, inl, inr, true, not, List, [], ◌∷◌, ◌++◌,
  arith, All, Bool-cases, length,
}
use simple_http_server.Locks.{
  Hold, Thread, Trace, acquire, release, classes, conflicts, conflicts_any, is_blocked, can_move,
  can_step_in, step_in, run, advance, is_below, is_ordered, IsOrdered, IsDone,
}

-- A thread of the list, by number.
pub data At : ℕ → Thread → List Thread → Type 0 where
  here : {t : Thread} {ts : List Thread} → At 0 t (t ∷ ts)
  there : {i : ℕ} {t u : Thread} {ts : List Thread} → At i t ts → At (suc i) t (u ∷ ts)

-- A scoped lock that a thread has.
pub data Has (h : Hold) : List Hold → Type 0 where
  first : {hs : List Hold} → Has h (h ∷ hs)
  later : {k : Hold} {hs : List Hold} → Has h hs → Has h (k ∷ hs)

At-can_step_in :
    {i : ℕ} {t : Thread} {ts : List Thread}
    → At i t ts
    → (all : List Thread) → can_step_in all i ts ≡ can_move all t.rest
unfolding can_step_in
At-can_step_in here all = refl
At-can_step_in (there a) all = At-can_step_in a all

At-IsOrdered : {i : ℕ} {t : Thread} {ts : List Thread} → At i t ts → All IsOrdered ts → IsOrdered t
At-IsOrdered here (o, os) = o
At-IsOrdered (there a) (o, os) = At-IsOrdered a os

conflicts_any-Has :
    (h : Hold) (ks : List Hold)
    → conflicts_any h ks ≡ true
    → (k : Hold) × Has k ks × (conflicts h k ≡ true)
unfolding conflicts_any
conflicts_any-Has h [] e = absurd (ground (arith, e))
conflicts_any-Has h (k ∷ ks) e = elim (Bool-cases (conflicts h k)) [
  | inl c ↦ (k, first, c)
  | inr n ↦ let (j, has, c) = conflicts_any-Has h ks (rw (n) at e) in (j, later has, c)
]

is_blocked-At :
    (h : Hold) (ts : List Thread)
    → is_blocked h ts ≡ true
    → (i : ℕ) × (t : Thread) × At i t ts × (k : Hold) × Has k t.held × (conflicts h k ≡ true)
unfolding is_blocked
is_blocked-At h [] e = absurd (ground (arith, e))
is_blocked-At h (t ∷ ts) e = elim (Bool-cases (conflicts_any h t.held)) [
  | inl c ↦ let (k, has, q) = conflicts_any-Has h t.held c in (0, t, here, k, has, q)
  | inr n ↦
      let (i, u, a, k, has, q) = is_blocked-At h ts (rw (n) at e) in (suc i, u, there a, k, has, q)
]

is_below-Has :
    (k : Hold) (hs : List Hold) (c : ℕ) → Has k hs → is_below c hs ≡ true → k.lock.class < c
is_below-Has k [] c has e = elim has [ ]
is_below-Has k (h ∷ hs) c first e = ground (arith, e)
is_below-Has k (h ∷ hs) c (later has) e = is_below-Has k hs c has (ground (arith, e))

-- A thread that has a lock can move, or is about to take one of a later class.
after_held :
    (all : List Thread) (k : Hold) (held : List Hold) (rest : Trace)
    → Has k held
    → is_ordered held rest ≡ true
    → (can_move all rest ≡ true)
      ⊎ ((h : Hold) × (k.lock.class < h.lock.class)
          × (h.lock.class < classes)
          × (can_move all rest ≡ not (is_blocked h all)))
unfolding is_ordered can_move
after_held all k [] rest has e = elim has [ ]
after_held all k (h ∷ hs) [] has e = absurd (ground (arith, e))
after_held all k (h ∷ hs) (release ∷ rest) has e = inl refl
after_held all k (h ∷ hs) (acquire g ∷ rest) has e =
    inr (g, is_below-Has k (h ∷ hs) g.lock.class has (ground (arith, e)), ground (arith, e), refl)

conflicts-class : (h k : Hold) → conflicts h k ≡ true → h.lock.class ≡ k.lock.class
conflicts-class h k e = ground (arith, e)

-- If a lock cannot be taken, then some thread can move: the one that has the lock, or one that
-- it waits for; the locks waited for come later and later in the order.
blocked_moves :
    (fuel : ℕ) (all : List Thread) (h : Hold)
    → All IsOrdered all
    → classes ≤ h.lock.class + fuel
    → h.lock.class < classes
    → is_blocked h all ≡ true
    → (i : ℕ) × (can_step_in all i all ≡ true)
unfolding IsOrdered
blocked_moves zero all h os near last b = absurd (omega (arith, near, last))
blocked_moves (suc fuel) all h os near last b =
    let (i, t, at, k, has, c) = is_blocked-At h all b in
    elim (after_held all k t.held t.rest has (At-IsOrdered at os)) [
      | inl m ↦ (i, At-can_step_in at all ∙ m)
      | inr (g, behind, within, moves) ↦ elim (Bool-cases (is_blocked g all)) [
        | inl b' ↦
            blocked_moves fuel all g os (omega (arith, near, behind, conflicts-class h k c)) within
              b'
        | inr n ↦ (i, At-can_step_in at all ∙ (moves ∙ ap not n))
      ]
    ]

moves_next :
    (all : List Thread) (i : ℕ) (t : Thread) (held : List Hold) (rest : Trace)
    → All IsOrdered all
    → is_ordered held rest ≡ true
    → can_step_in all i all ≡ can_move all rest
    → (rest ≡ []) ⊎ ((j : ℕ) × (can_step_in all j all ≡ true))
unfolding is_ordered can_move
moves_next all i t held [] os o e = inl refl
moves_next all i t held (release ∷ rest) os o e = inr (i, e)
moves_next all i t held (acquire h ∷ rest) os o e = elim (Bool-cases (is_blocked h all)) [
  | inl b ↦ inr (blocked_moves classes all h os (omega arith) (ground (arith, o)) b)
  | inr n ↦ inr (i, e ∙ ap not n)
]

moves_among :
    (all ts : List Thread)
    → All IsOrdered all
    → ((i : ℕ) (t : Thread) → At i t ts → (j : ℕ) × At j t all)
    → All IsDone ts ⊎ ((i : ℕ) × (can_step_in all i all ≡ true))
unfolding IsOrdered IsDone
moves_among all [] os sub = inl tt
moves_among all (t ∷ ts) os sub =
    let (i, at) = sub 0 t here in
    elim (moves_next all i t t.held t.rest os (At-IsOrdered at os) (At-can_step_in at all)) [
      | inr m ↦ inr m
      | inl d ↦ elim (moves_among all ts os (λ j u a. sub (suc j) u (there a))) [
        | inr m ↦ inr m
        | inl ds ↦ inl (d, ds)
      ]
    ]

-- If every thread takes its locks in the order of the classes, then all are done or one can move.
pub moves :
    (ts : List Thread) → All IsOrdered ts → All IsDone ts ⊎ ((i : ℕ) × (can_step_in ts i ts ≡ true))
moves ts os = moves_among ts ts os (λ i t a. (i, a))

-- A step keeps the order.
advance-IsOrdered :
    (held : List Hold) (rest : Trace) → is_ordered held rest ≡ true → IsOrdered (advance held rest)
unfolding advance IsOrdered is_ordered
advance-IsOrdered held [] o = o
advance-IsOrdered held (acquire h ∷ rest) o = ground (arith, o)
advance-IsOrdered [] (release ∷ rest) o = absurd (ground (arith, o))
advance-IsOrdered (h ∷ held) (release ∷ rest) o = o

step_in-IsOrdered :
    (all ts : List Thread) (i : ℕ) → All IsOrdered ts → All IsOrdered (step_in all i ts)
unfolding step_in
step_in-IsOrdered all [] i os = os
step_in-IsOrdered all (t ∷ ts) zero (o, os) = elim (Bool-cases (can_move all t.rest)) [
  | inl m ↦ rw (m) (advance-IsOrdered t.held t.rest (unfold IsOrdered in o), os)
  | inr n ↦ rw (n) (o, os)
]
step_in-IsOrdered all (t ∷ ts) (suc i) (o, os) = (o, step_in-IsOrdered all ts i os)

pub run-IsOrdered : (ts : List Thread) (is : List ℕ) → All IsOrdered ts → All IsOrdered (run ts is)
unfolding run
run-IsOrdered ts [] os = os
run-IsOrdered ts (i ∷ is) os = run-IsOrdered (step_in ts i ts) is (step_in-IsOrdered ts ts i os)

-- How much all threads have still to do.
left : List Thread → ℕ
left [] = 0
left (t ∷ ts) = length t.rest + left ts

length-advance :
    (all : List Thread) (held : List Hold) (rest : Trace)
    → can_move all rest ≡ true
    → length rest ≡ suc (length (advance held rest).rest)
unfolding can_move advance
length-advance all held [] m = absurd (ground (arith, m))
length-advance all held (acquire h ∷ rest) m = refl
length-advance all held (release ∷ rest) m = refl

left-step_in :
    (all ts : List Thread) (i : ℕ)
    → can_step_in all i ts ≡ true
    → left ts ≡ suc (left (step_in all i ts))
unfolding can_step_in step_in left
left-step_in all [] i m = absurd (ground (arith, m))
left-step_in all (t ∷ ts) zero m = rw (m) (omega (arith, length-advance all t.held t.rest m))
left-step_in all (t ∷ ts) (suc i) m = omega (arith, left-step_in all ts i m)

-- The threads can be brought to their ends.
finish_within :
    (fuel : ℕ) (ts : List Thread)
    → left ts ≤ fuel
    → All IsOrdered ts
    → (is : List ℕ) × All IsDone (run ts is)
unfolding run
finish_within zero ts l os = elim (moves ts os) [
  | inl d ↦ ([], d)
  | inr (i, m) ↦ absurd (omega (arith, l, left-step_in ts ts i m))
]
finish_within (suc fuel) ts l os = elim (moves ts os) [
  | inl d ↦ ([], d)
  | inr (i, m) ↦
      let (is, d) =
        finish_within fuel (step_in ts i ts) (omega (arith, l, left-step_in ts ts i m))
          (step_in-IsOrdered ts ts i os) in
      (i ∷ is, d)
]

run_append : (ts : List Thread) (is js : List ℕ) → run ts (is ++ js) ≡ run (run ts is) js
unfolding run
run_append ts [] js = refl
run_append ts (i ∷ is) js = run_append (step_in ts i ts) is js

-- However threads that take their locks in the order of the classes have gone on, they can go on
-- to the end of all.
pub run_finishes :
    (ts : List Thread) (is : List ℕ)
    → All IsOrdered ts
    → (js : List ℕ) × All IsDone (run ts (is ++ js))
run_finishes ts is os =
    let (js, d) =
      finish_within (left (run ts is)) (run ts is) (omega arith) (run-IsOrdered ts is os) in
    (js, rw (run_append ts is js) d)
