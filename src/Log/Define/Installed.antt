-- ===== src/Log/Define/Installed.antt =====
-- The appenders that the listener of `LogIniter` makes, each as its definition asks.
use simple_http_server.Base.{
  ℕ, ◌+◌, ◌<◌, ◌≡◌, refl, sym, subst, ap, ◌∙◌, true, false, not, List, [], ◌∷◌, some, arith, inl,
  inr, Bool-cases, if◌then◌else◌, ◌==◌, is_empty,
}
use simple_http_server.Base.Bytes.{Bytes}
use simple_http_server.Log.Formatter.{LogFormatter, new_formatter, default_pattern}
use simple_http_server.Log.Appender.{
  World, Stream, AppenderKind, stdout, file, LogAppender, new_appender, new_stdout_appender,
  new_file_appender, reopen, print_line, new_stream,
}
use simple_http_server.Log.Appender
use simple_http_server.Log.Appender.Streams.{
  IsSettled, IsNew, new_stdout_appender-IsNew, new_file_appender-IsNew, new_file_appender-IsSettled,
}
use simple_http_server.Log.Logger.{Heap, set_level, clear_appenders, add_appender}
use simple_http_server.Log.Manager.{Manager, get_logger}
use simple_http_server.Log.Define.{
  LogAppenderDefine, LogDefine, make_appender, apply_formatter, install, configure_appender,
  configure_appenders, with_heap, configure,
}
use simple_http_server.Log.Define.Changes.{
  has_type, addresses, make_appender_typed, make_appender_untyped, install-next,
}
use simple_http_server.Log.Define.Grows.{Grows, install-Grows, configure_appenders-Grows}

-- What a definition asks of its appender.
abbrev pub kind_of : LogAppenderDefine → AppenderKind
kind_of a = if a.type == 1 then file a.file else stdout

unfoldable pub used_formatter : LogAppenderDefine → LogFormatter
used_formatter a =
    if is_empty a.formatter
    then new_formatter default_pattern
    else if not (new_formatter a.formatter).failed
    then new_formatter a.formatter
    else new_formatter default_pattern

-- The appender `x` is of the kind, the level and the formatter that `a` asks for, and the stream of
-- a file is open and good if the file can be opened.
pub record IsMadeFor (w : World) (a : LogAppenderDefine) (x : LogAppender) : Type 0 where
  pub kind : x.kind ≡ kind_of a
  pub level : x.level ≡ a.level
  pub formatter : x.formatter ≡ used_formatter a
  pub stream : (a.type == 1) ≡ true → IsSettled x.stream × (x.stream.is_open ≡ w.can_open a.file)

-- The definitions of a type that the listener knows.
unfoldable pub known : List LogAppenderDefine → List LogAppenderDefine
known [] = []
known (a ∷ rest) = if has_type a then a ∷ known rest else known rest

-- At the addresses stand appenders for the definitions, one for each, in order.
unfoldable pub Installed : Heap → List ℕ → List LogAppenderDefine → Type 0
Installed h [] [] = Unit
Installed h [] (a ∷ rest) = true ≡ false
Installed h (p ∷ ps) [] = true ≡ false
Installed h (p ∷ ps) (a ∷ rest) =
    (p < h.next_appender) × IsMadeFor h.world a (h.appender p) × Installed h ps rest

IsMadeFor-world :
    (v w : World) (a : LogAppenderDefine) (x : LogAppender)
    → w.can_open ≡ v.can_open
    → IsMadeFor v a x
    → IsMadeFor w a x
IsMadeFor-world v w a x e i = record {
  kind = i.kind;
  level = i.level;
  formatter = i.formatter;
  stream = λ t. ((i.stream t).0, (i.stream t).1 ∙ sym (ap (λ f. f a.file) e));
}

pub Grows-Installed :
    {h h' : Heap} (ps : List ℕ) (as' : List LogAppenderDefine)
    → Grows h h'
    → Installed h ps as'
    → Installed h' ps as'
unfolding Installed
Grows-Installed [] [] g i = i
Grows-Installed [] (a ∷ rest) g i = i
Grows-Installed (p ∷ ps) [] g i = i
Grows-Installed {h} {h'} (p ∷ ps) (a ∷ rest) g (l, m, i) = (
  omega (arith, l, g.more),
  rw (g.kept p l) (IsMadeFor-world h.world h'.world a (h.appender p) g.same_open m),
  Grows-Installed ps rest g i,
)

-- What `install` leaves at the new address.
unfoldable pub ready : World → Bytes → LogAppenderDefine → LogAppender → LogAppender
ready w name a made = (apply_formatter name a (Appender.set_level made a.level) w).0

install-ready :
    (m : Manager) (p : ℕ) (name : Bytes) (a : LogAppenderDefine) (made : LogAppender)
    → (install m p name a made).heap.appender m.heap.next_appender ≡ ready m.heap.world name a made
unfolding install add_appender ready
install-ready m p name a made = ground arith

-- What `make_appender` makes.
record IsMade (w : World) (a : LogAppenderDefine) (x : LogAppender) : Type 0 where
  new : IsNew (kind_of a) w x
  stream : (a.type == 1) ≡ true → IsSettled x.stream × (x.stream.is_open ≡ w.can_open a.file)

make_appender-IsMade :
    (w : World) (a : LogAppenderDefine) (made : LogAppender)
    → make_appender w a ≡ some made
    → IsMade w a made
unfolding make_appender
make_appender-IsMade w a made e = elim (Bool-cases (a.type == 1)) [
  | inl t ↦
      let this : new_file_appender w a.file ≡ made = ground (arith, e, t) in
      subst (IsMade w a) this (record {
        new = rw (t) (new_file_appender-IsNew w a.file);
        stream = λ _. new_file_appender-IsSettled w a.file;
      })
  | inr t ↦
      let this : new_stdout_appender ≡ made = ground (arith, e, t) in
      subst (IsMade w a) this (record {
        new = rw (t) (new_stdout_appender-IsNew w);
        stream = λ u. absurd (ground (arith, t, u));
      })
]

ready-IsMadeFor :
    (w v : World) (name : Bytes) (a : LogAppenderDefine) (made : LogAppender)
    → make_appender w a ≡ some made
    → v.can_open ≡ w.can_open
    → IsMadeFor v a (ready w name a made)
unfolding ready apply_formatter used_formatter Appender.set_level Appender.set_formatter
ready-IsMadeFor w v name a made e same =
    let i = make_appender-IsMade w a made e in
    let same_stream : (ready w name a made).stream ≡ made.stream = ground arith in
    record {
      kind = ground (arith, i.new.same_kind);
      level = ground arith;
      formatter = ground (arith, i.new.formatter);
      stream = λ t. rw same_stream ((i.stream t).0, (i.stream t).1 ∙ sym (ap (λ f. f a.file) same));
    }

install-Installed :
    (m : Manager) (p : ℕ) (name : Bytes) (a : LogAppenderDefine) (made : LogAppender)
    → make_appender m.heap.world a ≡ some made
    → let h = (install m p name a made).heap in
      IsMadeFor h.world a (h.appender m.heap.next_appender)
install-Installed m p name a made e = rw (install-ready m p name a made) (
    ready-IsMadeFor m.heap.world (install m p name a made).heap.world name a made e
      (install-Grows m p name a made).same_open)

-- The inner loop makes what its definitions ask for.
pub configure_appenders-Installed :
    (as' : List LogAppenderDefine) (m : Manager) (p : ℕ) (name : Bytes)
    → Installed
        (configure_appenders m p name as').heap
        (addresses m.heap.next_appender as')
        (known as')
unfolding configure_appenders configure_appender known Installed
configure_appenders-Installed [] m p name = tt
configure_appenders-Installed (a ∷ rest) m p name = elim (Bool-cases (has_type a)) [
  | inl typed ↦
      let (made, e) = make_appender_typed m.heap.world a typed in
      let n = install m p name a made in
      let this : configure_appender m p name a ≡ n = rw (e, configure_appender) refl in
      let g = configure_appenders-Grows rest n p name in
      let next = install-next m p name a made in
      let first =
        Grows-Installed (m.heap.next_appender ∷ []) (a ∷ []) g
          (omega (arith, next), install-Installed m p name a made e, tt) in
      rw (typed) (
        subst
          (λ k.
            Installed (configure_appenders k p name rest).heap
              (m.heap.next_appender ∷ addresses (m.heap.next_appender + 1) rest) (a ∷ known rest))
          (sym this)
          (
            first.0,
            first.1,
            subst
                (λ k.
                  Installed (configure_appenders n p name rest).heap (addresses k rest)
                    (known rest))
                next (configure_appenders-Installed rest n p name),
          ))
  | inr untyped ↦
      let this : configure_appender m p name a ≡ m =
        rw (make_appender_untyped m.heap.world a untyped, configure_appender) refl in
      rw (untyped) (
        subst
          (λ k.
            Installed (configure_appenders k p name rest).heap (addresses m.heap.next_appender rest)
              (known rest))
          (sym this) (configure_appenders-Installed rest m p name))
]

-- The logger's new appenders are what the definition asks for.
pub configure-Installed :
    (m : Manager) (d : LogDefine)
    → let m' = (get_logger m d.name).0 in
      Installed
        (configure m d).heap
        (addresses m'.heap.next_appender d.appenders)
        (known d.appenders)
unfolding configure set_level clear_appenders
configure-Installed m d =
    configure_appenders-Installed d.appenders
      (with_heap (get_logger m d.name).0 (
        clear_appenders (set_level (get_logger m d.name).0.heap (get_logger m d.name).1 d.level)
          (get_logger m d.name).1))
      (get_logger m d.name).1 d.name
