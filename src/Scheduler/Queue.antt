-- ===== src/Scheduler/Queue.antt =====
-- Which task a thread takes from the queue.
use simple_http_server.Base.{
  ℕ, ◌≡◌, refl, ◌++◌, ◌&&◌, append-nil, append_assoc, Bool, true, false, not, ◌||◌, List, [], ◌∷◌,
  Option, none, some, arith, if◌then◌else◌, Bool-cases, inl, inr, All, is_empty,
}
use simple_http_server.Fiber.{Process, ran, is_some}
use simple_http_server.Scheduler.{
  Task, Scheduler, schedule_no_lock, schedule_each, schedule_all, tickle_if, Picked, keep, pick,
  is_for_other, is_running,
}

-- A thread may not run the task: it is for another thread, or its fiber is running.
pub may_not : Process → ℕ → Task → Bool
may_not p t ft = is_for_other t ft || is_running p ft

unfoldable pub IsTask : Task → Type 0
IsTask ft = (is_some ft.fiber || is_some ft.cb) ≡ true

-- The first task that thread `t` may run is taken out of a queue, or none is.
pub data Takes (p : Process) (t : ℕ) : List Task → Option Task → List Task → Type 0 where
  nothing : Takes p t [] none []
  skip :
      (ft : Task) (rest : List Task) (taken : Option Task) (left : List Task)
      → may_not p t ft ≡ true
      → Takes p t rest taken left
      → Takes p t (ft ∷ rest) taken (ft ∷ left)
  take :
      (ft : Task) (rest : List Task) → may_not p t ft ≡ false → Takes p t (ft ∷ rest) (some ft) rest

pub any : (Task → Bool) → List Task → Bool
any f [] = false
any f (ft ∷ rest) = f ft || any f rest

any-is_empty :
    (f : Task → Bool) (fts : List Task) (b : Bool)
    → any f fts ≡ true
    → (b || not (is_empty fts)) ≡ true
unfolding any
any-is_empty f [] b e = ground (arith, e)
any-is_empty f (ft ∷ fts) true e = refl
any-is_empty f (ft ∷ fts) false e = refl

-- What the loop over a queue gives, begun with `tickle_me` at `b`.
pub record IsPicked (p : Process) (t : ℕ) (fts : List Task) (b : Bool) (k : Picked) : Type 0 where
  pub takes : Takes p t fts k.task k.tasks
  pub asked : b ≡ true → k.tickle_me ≡ true
  pub tickles : any (is_for_other t) k.tasks ≡ true → k.tickle_me ≡ true

keep-IsPicked :
    (p : Process) (t : ℕ) (ft : Task) (fts : List Task) (b c : Bool) (k : Picked)
    → may_not p t ft ≡ true
    → (b ≡ true → c ≡ true)
    → (is_for_other t ft ≡ true → c ≡ true)
    → IsPicked p t fts c k
    → IsPicked p t (ft ∷ fts) b (keep ft k)
unfolding any
keep-IsPicked p t ft fts b c k h hb ho i = record {
  takes = skip ft fts k.task k.tasks h i.takes;
  asked = λ e. i.asked (hb e);
  tickles = λ e. ground (arith, e, i.asked, i.tickles, ho);
}

-- The loop of `run` over a queue of tasks that all have a fiber or a function comes to its end
-- with no failed assertion; it takes out the first task that the thread may run, if there is one,
-- keeps the others in their order, and asks for `tickle` if a task for another thread is left.
pub pick-IsPicked :
    (p : Process) (t : ℕ) (fts : List Task) (b : Bool)
    → All IsTask fts
    → (k : Picked) × (pick p t fts b ≡ ran k) × IsPicked p t fts b k
unfolding pick IsTask any may_not
pick-IsPicked p t [] b h =
    (_, refl, record { takes = nothing; asked = λ e. e; tickles = λ e. ground (arith, e) })
pick-IsPicked p t (ft ∷ rest) b (h, hs) = elim (Bool-cases (is_for_other t ft)) [
  | inl o ↦
      let (k, e, i) = pick-IsPicked p t rest true hs in
      (
        keep ft k,
        rw (o, e) refl,
        keep-IsPicked p t ft rest b true k (rw (o) refl) (λ x. refl) (λ x. refl) i,
      )
  | inr o ↦ elim (Bool-cases (is_running p ft)) [
    | inl r ↦
        let (k, e, i) = pick-IsPicked p t rest b hs in
        (
          keep ft k,
          rw (o, h, r, e) refl,
          keep-IsPicked p t ft rest b b k (rw (o, r) refl) (λ x. x) (λ x. ground (arith, o, x)) i,
        )
    | inr r ↦ (
      _,
      rw (o, h, r) refl,
      record {
        takes = take ft rest (rw (o, r) refl);
        asked = λ e. ground (arith, e);
        tickles = λ e. any-is_empty (is_for_other t) rest b e;
      },
    )
  ]
]

-- The tasks of a list that are not empty.
unfoldable pub tasks_of : List Task → List Task
tasks_of [] = []
tasks_of (ft ∷ fts) = if is_some ft.fiber || is_some ft.cb then ft ∷ tasks_of fts else tasks_of fts

was_empty-push :
    (fts : List Task) (ft : Task) (b : Bool)
    → (is_empty fts || (is_empty (fts ++ ft ∷ []) && b)) ≡ (is_empty fts && true)
was_empty-push [] ft b = refl
was_empty-push (x ∷ fts) ft b = refl

was_empty-drop : (b c : Bool) → (b || (b && c)) ≡ (b && true)
was_empty-drop true c = refl
was_empty-drop false c = refl

was_empty-stop : (b : Bool) → (b && false) ≡ false
was_empty-stop true = refl
was_empty-stop false = refl

schedule_each-tasks :
    (s : Scheduler) (fts : List Task)
    → schedule_each s fts
      ≡ (record s { tasks = s.tasks ++ tasks_of fts }, is_empty s.tasks && not (is_empty fts))
unfolding schedule_each schedule_no_lock tasks_of
schedule_each-tasks s [] = rw (append-nil s.tasks, was_empty-stop (is_empty s.tasks)) refl
schedule_each-tasks s (ft ∷ fts) = elim (Bool-cases (is_some ft.fiber || is_some ft.cb)) [
  | inl e ↦
      rw
        (
          e,
          schedule_each-tasks (record s { tasks = s.tasks ++ ft ∷ [] }) fts,
          append_assoc s.tasks (ft ∷ []) (tasks_of fts),
          was_empty-push s.tasks ft (not (is_empty fts)),
        )
        refl
  | inr e ↦
      rw (e, schedule_each-tasks s fts, was_empty-drop (is_empty s.tasks) (not (is_empty fts))) refl
]

-- Scheduling a range appends its tasks that are not empty, in order, and calls `tickle` once if
-- the queue was empty and the range is not.
pub schedule_all-tasks :
    (s : Scheduler) (fts : List Task)
    → schedule_all s fts
      ≡ tickle_if
          (is_empty s.tasks && not (is_empty fts))
          (record s { tasks = s.tasks ++ tasks_of fts })
unfolding schedule_all
schedule_all-tasks s fts = rw (schedule_each-tasks s fts) refl
