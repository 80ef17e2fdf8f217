-- ===== src/Log/Pattern/RoundTrip.antt =====
-- A printed list of pieces is cut back into those pieces.
use simple_http_server.Base.{
  ℕ, ◌+◌, ◌≡◌, refl, ◌≢◌, false, List, [], ◌∷◌, ◌++◌, append_assoc, append-nil, arith, length,
  length-append, All, ◌∙◌, ap,
}
use simple_http_server.Base.Bytes.{Bytes}
use simple_http_server.Log.Pattern.{
  Piece, text, directive, scan, scan_start, Lexer, lex, lex_byte, lex_start, lex_finish, flush,
  directive_end, tokenize, starts_percent,
}
use simple_http_server.Log.Pattern.Inner.{
  AllAlpha, IsName, Stops, IsOpen, scan_name, scan_name_brace, scan_fmt, lex-append,
  starts_percent-alpha,
}

-- A piece in the pattern language.
abbrev pub print_piece : Piece → Bytes
print_piece (text t) = t
print_piece (directive n []) = b'%' ∷ n
print_piece (directive n (c ∷ f)) = b'%' ∷ (n ++ (b'{' ∷ ((c ∷ f) ++ (b'}' ∷ []))))

abbrev pub print : List Piece → Bytes
print [] = []
print (p ∷ ps) = print_piece p ++ print ps

abbrev pub IsPlain : Bytes → Type 0
IsPlain = All (λ c. c ≢ b'%')

abbrev pub StartsText : List Piece → Type 0
StartsText (text t ∷ ps) = Unit
StartsText _ = ⊥

-- Text is neither empty nor next to text, names are letters, and arguments hold no brace that
-- closes them. A directive with no argument ends where its name ends.
abbrev pub IsPrintable : List Piece → Type 0
IsPrintable [] = Unit
IsPrintable (text t ∷ ps) = (t ≢ []) × IsPlain t × (¬ StartsText ps) × IsPrintable ps
IsPrintable (directive n [] ∷ ps) = IsName n × Stops (print ps) × IsPrintable ps
IsPrintable (directive n (c ∷ f) ∷ ps) = IsName n × IsOpen (c ∷ f) × IsPrintable ps

pub lex-step :
    (s : Lexer) (c : ℕ) (rest : Bytes) (s' : Lexer) (k : ℕ)
    → lex_byte s c rest ≡ (s', k)
    → lex 0 s (c ∷ rest) ≡ lex k s' rest
unfolding lex
lex-step s c rest s' k e = ap (λ (r : Lexer × ℕ). lex r.1 r.0 rest) e

pub lex_plain :
    (t rest : Bytes) (s : Lexer)
    → IsPlain t
    → lex 0 s (t ++ rest) ≡ lex 0 (record s { nstr = s.nstr ++ t }) rest
lex_plain [] rest s h = rw append-nil refl
lex_plain (c ∷ t) rest s h =
    lex-step s c (t ++ rest) (record s { nstr = s.nstr ++ c ∷ [] }) 0
      (unfold lex_byte in ground (arith, h.0))
    ∙ lex_plain t rest (record s { nstr = s.nstr ++ c ∷ [] }) h.1
    ∙ simp append_assoc

-- The directive's piece, with the text before it pushed first.
abbrev push : Lexer → Bytes → Bytes → Lexer
push s n f = record s { vec = flush s.vec s.nstr ++ directive n f ∷ []; nstr = [] }

-- A `%` with no other behind it, whose inner loop ends outside braces.
pub lex_directive :
    (s : Lexer) (w rest : Bytes) {n f : Bytes}
    → starts_percent (w ++ rest) ≡ false
    → scan scan_start (w ++ rest) ≡ record { in_braces = false; str = n; fmt = f; used = length w }
    → lex 0 s (b'%' ∷ (w ++ rest)) ≡ lex 0 (push s n f) rest
lex_directive s w rest {n} {f} no_percent e =
    lex-step s b'%' (w ++ rest) (push s n f) (length w)
      (unfold lex_byte directive_end in rw (no_percent, e) refl)
    ∙ lex-append w rest (push s n f)

lex_bare :
    (n rest : Bytes) (s : Lexer)
    → IsName n
    → Stops rest
    → lex 0 s (b'%' ∷ (n ++ rest)) ≡ lex 0 (push s n []) rest
lex_bare [] rest s h k = elim h [ ]
lex_bare (c ∷ n) rest s h k =
    lex_directive s (c ∷ n) rest (starts_percent-alpha c (n ++ rest) h.0)
      (scan_name [] c n rest h k)

-- Name, brace, argument and brace have the length that the inner loop reports.
length-braced :
    (n f : Bytes) → length ((n ++ b'{' ∷ []) ++ f) + 1 ≡ length (n ++ (b'{' ∷ (f ++ b'}' ∷ [])))
length-braced n f = simp (length-append, append_assoc) (omega (arith, length-append f (b'}' ∷ [])))

scan_braced :
    (n f rest : Bytes)
    → AllAlpha n
    → IsOpen f
    → scan scan_start ((n ++ (b'{' ∷ (f ++ b'}' ∷ []))) ++ rest) ≡ record {
      in_braces = false;
      str = n;
      fmt = f;
      used = length (n ++ (b'{' ∷ (f ++ b'}' ∷ [])));
    }
scan_braced n f rest h k =
    ap (scan scan_start) (simp append_assoc)
    ∙ scan_name_brace [] n (f ++ (b'}' ∷ rest)) h
    ∙ scan_fmt (n ++ b'{' ∷ []) n [] f rest k
    ∙ ap (λ u. record { in_braces = false; str = n; fmt = f; used = u }) (length-braced n f)

lex_braced :
    (n f rest : Bytes) (s : Lexer)
    → IsName n
    → IsOpen f
    → lex 0 s (b'%' ∷ ((n ++ (b'{' ∷ (f ++ b'}' ∷ []))) ++ rest)) ≡ lex 0 (push s n f) rest
lex_braced [] f rest s h k = elim h [ ]
lex_braced (c ∷ n) f rest s h k =
    lex_directive s ((c ∷ n) ++ (b'{' ∷ (f ++ b'}' ∷ []))) rest
      (starts_percent-alpha c ((n ++ (b'{' ∷ (f ++ b'}' ∷ []))) ++ rest) h.0)
      (scan_braced (c ∷ n) f rest h k)

flush_plain :
    (vec ps : List Piece) (nstr t : Bytes)
    → nstr ≡ []
    → t ≢ []
    → flush vec (nstr ++ t) ++ ps ≡ flush vec nstr ++ text t ∷ ps
unfolding flush
flush_plain vec ps nstr [] e ne = absurd (ne refl)
flush_plain vec ps nstr (c ∷ t) e ne = rw e (append_assoc vec (text (c ∷ t) ∷ []) ps)

flush-push :
    (s : Lexer) (n f : Bytes) (ps : List Piece)
    → flush (push s n f).vec [] ++ ps ≡ flush s.vec s.nstr ++ directive n f ∷ ps
unfolding flush
flush-push s n f ps = append_assoc (flush s.vec s.nstr) (directive n f ∷ []) ps

lex-print :
    (ps : List Piece) (s : Lexer)
    → IsPrintable ps
    → (StartsText ps → s.nstr ≡ [])
    → lex_finish (lex 0 s (print ps)) ≡ (flush s.vec s.nstr ++ ps, s.failed)
lex-print [] s h e = unfold lex in rw append-nil
lex-print (text t ∷ ps) s (ne, plain, gap, h) e =
    ap lex_finish (lex_plain t (print ps) s plain)
    ∙ lex-print ps (record s { nstr = s.nstr ++ t }) h (λ k. absurd (gap k))
    ∙ ap (λ v. (v, s.failed)) (flush_plain s.vec ps s.nstr t (e tt) ne)
lex-print (directive n [] ∷ ps) s (name, stop, h) e =
    ap lex_finish (lex_bare n (print ps) s name stop)
    ∙ lex-print ps (push s n []) h (λ _. refl)
    ∙ ap (λ v. (v, s.failed)) (flush-push s n [] ps)
lex-print (directive n (c ∷ f) ∷ ps) s (name, open_f, h) e =
    ap lex_finish (lex_braced n (c ∷ f) (print ps) s name open_f)
    ∙ lex-print ps (push s n (c ∷ f)) h (λ _. refl)
    ∙ ap (λ v. (v, s.failed)) (flush-push s n (c ∷ f) ps)

-- Printing a list of pieces as a pattern and cutting the pattern with `LogFormatter::init` gives
-- the pieces back, with no error, if texts are not empty, hold no `%` and are not next to each
-- other, names are letters, arguments hold no `}`, and what follows a directive without argument
-- does not continue it.
pub tokenize-print : (ps : List Piece) → IsPrintable ps → tokenize (print ps) ≡ (ps, false)
unfolding tokenize flush
tokenize-print ps h = lex-print ps lex_start h (λ _. refl)
