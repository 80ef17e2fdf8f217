-- ===== src/Locks/Fits.antt =====
-- Traces that a thread may go through with what it has locked.
use simple_http_server.Base.{
  ℕ, suc, ◌≤◌, ◌<◌, ◌≡◌, refl, ◌∙◌, Bool, true, false, List, [], ◌∷◌, ◌++◌, Option, none, some,
  append_assoc, arith, ltb, if◌then◌else◌,
}
use simple_http_server.Locks.{Hold, Trace, release, classes, scoped, on_found, is_below, is_ordered}

-- A thread all of whose locks are of classes before `c` keeps the order through `t`, and has the
-- same locks behind it.
unfoldable pub Fits : ℕ → Trace → Type 0
Fits c t =
    (held : List Hold) (rest : Trace)
    → is_below c held ≡ true
    → is_ordered held (t ++ rest) ≡ is_ordered held rest

is_below_le : (c d : ℕ) (hs : List Hold) → c ≤ d → is_below c hs ≡ true → is_below d hs ≡ true
is_below_le c d [] l e = refl
is_below_le c d (h ∷ hs) l e = ground (arith, l, e, is_below_le c d hs l (ground (arith, e)))

pub Fits-nil : (c : ℕ) → Fits c []
unfolding Fits
Fits-nil c = λ held rest b. refl

pub Fits-append : (c : ℕ) (t u : Trace) → Fits c t → Fits c u → Fits c (t ++ u)
unfolding Fits
Fits-append c t u ft fu =
    λ held rest b. rw (append_assoc t u rest) (ft held (u ++ rest) b ∙ fu held rest b)

pub Fits-le : (c d : ℕ) (t : Trace) → c ≤ d → Fits d t → Fits c t
unfolding Fits
Fits-le c d t l f = λ held rest b. f held rest (is_below_le c d held l b)

pub Fits-if : (c : ℕ) (b : Bool) (t u : Trace) → Fits c t → Fits c u → Fits c (if b then t else u)
Fits-if c true t u ft fu = ft
Fits-if c false t u ft fu = fu

-- A scoped lock of a class from `c` on, around a body that needs only locks of later classes.
pub Fits-scoped :
    (c : ℕ) (h : Hold) (body : Trace)
    → c ≤ h.lock.class
    → h.lock.class < classes
    → Fits (suc h.lock.class) body
    → Fits c (scoped h body)
unfolding is_ordered Fits
Fits-scoped c h body l last f = λ held rest b.
    let below = is_below_le c h.lock.class held l b in
    let within : ltb h.lock.class classes ≡ true = ground (arith, last) in
    let above : is_below (suc h.lock.class) (h ∷ held) ≡ true =
      ground (arith, is_below_le h.lock.class (suc h.lock.class) held (omega arith) below) in
    rw (within, below, append_assoc body (release ∷ []) rest) (f (h ∷ held) (release ∷ rest) above)

pub Fits-locked_alone :
    (c : ℕ) (h : Hold) → c ≤ h.lock.class → h.lock.class < classes → Fits c (scoped h [])
Fits-locked_alone c h l last = Fits-scoped c h [] l last (Fits-nil (suc h.lock.class))

pub Fits-on_found :
    {A : Type 0} (c : ℕ) (o : Option A) (missing : Trace) (found : A → Trace)
    → Fits c missing
    → ((a : A) → Fits c (found a))
    → Fits c (on_found o missing found)
Fits-on_found c none missing found fm ff = fm
Fits-on_found c (some a) missing found fm ff = ff a
