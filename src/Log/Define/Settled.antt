-- ===== src/Log/Define/Settled.antt =====
-- What the listener of `LogIniter` makes of each definition that is new or has changed.
use simple_http_server.Base.{
  ℕ, ◌≡◌, refl, sym, subst, ◌∙◌, ap, false, List, [], ◌∷◌, none, some, All, ◌==◌, ==_iff, arith,
  Bool-cases, Option-cases, inl, inr,
}
use simple_http_server.Base.Bytes.{Bytes, same, same_iff, same_refl}
use simple_http_server.Base.Dict.{find}
use simple_http_server.Log.Logger.{set_level, clear_appenders}
use simple_http_server.Log.Manager.{Manager, get_logger}
use simple_http_server.Log.Manager.Invariant.{
  IsValid, get_logger-IsValid, find-get_logger, logger-get_logger,
}
use simple_http_server.Log.Define.{
  LogDefine, find_define, same_define, configure, apply_define, apply_defines, retire,
  remove_defines, on_defines_changed,
}
use simple_http_server.Log.Define.Frame.{
  configure-Keeps, apply_define-IsValid, apply_defines-IsValid, retire-Keeps, retire-IsValid,
}
use simple_http_server.Log.Define.Changes.{configure_lem}
use simple_http_server.Log.Define.Installed.{known, Installed, Grows-Installed, configure-Installed}
use simple_http_server.Log.Define.Grows.{Grows, configure-Grows, retire-Grows}

-- The logger of the definition's name is registered, and has the level and the appenders that the
-- definition asks for.
pub record IsSettled (m : Manager) (d : LogDefine) : Type 0 where
  pub pointer : ℕ
  pub registered : find d.name m.loggers ≡ some pointer
  pub level_set : (m.heap.logger pointer).level ≡ d.level
  pub installed : Installed m.heap (m.heap.logger pointer).appenders (known d.appenders)

configure-IsSettled : (m : Manager) (d : LogDefine) → IsSettled (configure m d) d
configure-IsSettled m d =
    let p = (get_logger m d.name).1 in
    let e = configure_lem m d p in
    record {
      pointer = p;
      registered =
          ap (find d.name) (configure-Keeps m d).same_loggers
          ∙ find-get_logger m d.name d.name
          ∙ rw (same_refl d.name) refl;
      level_set = ground (arith, e);
      installed =
          subst (λ as'. Installed (configure m d).heap as' (known d.appenders)) (ground (arith, e))
            (configure-Installed m d);
    }

-- Two names that differ have different loggers.
apart :
    (m : Manager) (name other : Bytes) (p q : ℕ)
    → IsValid m
    → same name other ≡ false
    → find name m.loggers ≡ some p
    → find other m.loggers ≡ some q
    → (p == q) ≡ false
apart m name other p q v ne e f = elim (Bool-cases (p == q)) [
  | inr differs ↦ differs
  | inl at ↦
      let at_q = (==_iff p q).0 at in
      ground (
        arith,
        ne,
        subst (λ r. (m.heap.logger r).name ≡ name) at_q (v.named name p e),
        v.named other q f,
        same_iff name other,
      )
]

-- What changes one other logger, beyond what `getLogger` does.
record Spares (m n : Manager) (name : Bytes) : Type 0 where
  same_loggers : n.loggers ≡ (get_logger m name).0.loggers
  spared :
      (q : ℕ)
      → ((get_logger m name).1 == q) ≡ false
      → n.heap.logger q ≡ (get_logger m name).0.heap.logger q
  grows : Grows m.heap n.heap

Spares-IsSettled :
    (m n : Manager) (name : Bytes) (d : LogDefine)
    → Spares m n name
    → IsValid m
    → same name d.name ≡ false
    → IsSettled m d
    → IsSettled n d
Spares-IsSettled m n name d s v ne i =
    let m' = (get_logger m name).0 in
    let here : find name m'.loggers ≡ some (get_logger m name).1 =
      find-get_logger m name name ∙ rw (same_refl name) refl in
    let there : find d.name m'.loggers ≡ some i.pointer =
      find-get_logger m name d.name ∙ rw (ne) i.registered in
    let far = apart m' name d.name _ i.pointer (get_logger-IsValid m name v) ne here there in
    let kept : n.heap.logger i.pointer ≡ m.heap.logger i.pointer =
      s.spared i.pointer far
      ∙ logger-get_logger m name i.pointer (v.allocated d.name i.pointer i.registered) in
    record {
      pointer = i.pointer;
      registered = ap (find d.name) s.same_loggers ∙ there;
      level_set = ap (λ l. l.level) kept ∙ i.level_set;
      installed =
          subst (λ l. Installed n.heap l.appenders (known d.appenders)) (sym kept)
            (Grows-Installed (m.heap.logger i.pointer).appenders (known d.appenders) s.grows
              i.installed);
    }

configure-Spares : (m : Manager) (e : LogDefine) → Spares m (configure m e) e.name
configure-Spares m e = record {
  same_loggers = (configure-Keeps m e).same_loggers;
  spared = λ q far. configure_lem m e q ∙ rw (far) refl;
  grows = configure-Grows m e;
}

retire-Spares : (m : Manager) (name : Bytes) → Spares m (retire m name) name
unfolding retire set_level clear_appenders
retire-Spares m name = record {
  same_loggers = (retire-Keeps m name).same_loggers;
  spared = λ q far. rw (far) refl;
  grows = retire-Grows m name;
}

apply_define-IsSettled :
    (old : List LogDefine) (m : Manager) (e d : LogDefine)
    → IsValid m
    → same e.name d.name ≡ false
    → IsSettled m d
    → IsSettled (apply_define old m e) d
unfolding apply_define
apply_define-IsSettled old m e d v ne i =
    let moved = Spares-IsSettled m (configure m e) e.name d (configure-Spares m e) v ne i in
    elim (Option-cases (find_define e.name old)) [
      | inl new ↦ rw (new, apply_define) moved
      | inr (b, found) ↦
          rw (found, apply_define)
            (elim (Bool-cases (same_define e b)) [
              | inl equal ↦ rw equal i
              | inr differs ↦ rw differs moved
            ])
    ]

-- The names of a set's definitions differ.
abbrev pub HasNames : List LogDefine → Type 0
HasNames [] = Unit
HasNames (d ∷ ds) = All (λ e. same e.name d.name ≡ false) ds × HasNames ds

apply_defines-keeps :
    (ds old : List LogDefine) (m : Manager) (d : LogDefine)
    → IsValid m
    → All (λ e. same e.name d.name ≡ false) ds
    → IsSettled m d
    → IsSettled (apply_defines old m ds) d
unfolding apply_defines
apply_defines-keeps [] old m d v ne i = i
apply_defines-keeps (e ∷ ds) old m d v (ne, nes) i =
    apply_defines-keeps ds old (apply_define old m e) d (apply_define-IsValid old m e v) nes
      (apply_define-IsSettled old m e d v ne i)

-- The old definitions have none of this name, or one that differs as `operator==` has it.
abbrev pub IsChanged : List LogDefine → LogDefine → Type 0
IsChanged old d = (b : LogDefine) → find_define d.name old ≡ some b → same_define d b ≡ false

apply_define-changed :
    (old : List LogDefine) (m : Manager) (d : LogDefine)
    → IsChanged old d
    → apply_define old m d ≡ configure m d
unfolding apply_define
apply_define-changed old m d c = elim (Option-cases (find_define d.name old)) [
  | inl new ↦ rw (new, apply_define) refl
  | inr (b, found) ↦ rw (found, apply_define) (rw (c b found) refl)
]

apply_defines-IsSettled :
    (ds old : List LogDefine) (m : Manager) (d : LogDefine)
    → IsValid m
    → HasNames ds
    → find_define d.name ds ≡ some d
    → IsChanged old d
    → IsSettled (apply_defines old m ds) d
unfolding apply_defines find_define
apply_defines-IsSettled [] old m d v names there c = absurd (ground (arith, there))
apply_defines-IsSettled (e ∷ ds) old m d v (first, names) there c =
    elim (Bool-cases (same e.name d.name)) [
      | inl at ↦
          let this : e ≡ d = ground (arith, there, at) in
          apply_defines-keeps ds old (apply_define old m e) d (apply_define-IsValid old m e v)
            (subst (λ x. All (λ o. same o.name x.name ≡ false) ds) this first)
            (subst (λ x. IsSettled (apply_define old m x) d) (sym this)
              (rw (apply_define-changed old m d c) (configure-IsSettled m d)))
      | inr other ↦
          apply_defines-IsSettled ds old (apply_define old m e) d (apply_define-IsValid old m e v)
            names (ground (arith, there, other)) c
    ]

remove_defines-IsSettled :
    (ds new : List LogDefine) (m : Manager) (d : LogDefine)
    → IsValid m
    → find_define d.name new ≡ some d
    → IsSettled m d
    → IsSettled (remove_defines new m ds) d
unfolding remove_defines
remove_defines-IsSettled [] new m d v there i = i
remove_defines-IsSettled (e ∷ ds) new m d v there i = elim (Option-cases (find_define e.name new)) [
  | inl gone ↦
      rw (gone, remove_defines)
        (remove_defines-IsSettled ds new (retire m e.name) d (retire-IsValid m e.name v) there (
          Spares-IsSettled m (retire m e.name) e.name d (retire-Spares m e.name) v
            (other_name e d new gone there) i))
  | inr (b, kept) ↦ rw (kept, remove_defines) (remove_defines-IsSettled ds new m d v there i)
]
  where
    other_name :
        (e d : LogDefine) (new : List LogDefine)
        → find_define e.name new ≡ none
        → find_define d.name new ≡ some d
        → same e.name d.name ≡ false
    other_name e d new gone there = elim (Bool-cases (same e.name d.name)) [
      | inr differs ↦ differs
      | inl at ↦ absurd (
          ground (
            arith,
            subst (λ n. find_define n new ≡ none) ((same_iff e.name d.name).0 at) gone,
            there,
          ))
    ]

-- Whatever the listener does for the other definitions, old and new, the logger of a definition
-- that is new or has changed ends with its level and the appenders that it asks for.
pub on_defines_changed-IsSettled :
    (m : Manager) (old new : List LogDefine) (d : LogDefine)
    → IsValid m
    → HasNames new
    → find_define d.name new ≡ some d
    → IsChanged old d
    → IsSettled (on_defines_changed m old new) d
unfolding on_defines_changed
on_defines_changed-IsSettled m old new d v names there c =
    remove_defines-IsSettled old new (apply_defines old m new) d (apply_defines-IsValid new old m v)
      there (apply_defines-IsSettled new old m d v names there c)
