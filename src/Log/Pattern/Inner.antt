-- ===== src/Log/Pattern/Inner.antt =====
-- What the inner loop of `LogFormatter::init` reads behind a `%`.
use simple_http_server.Base.{
  ℕ, ◌+◌, ◌≡◌, refl, ◌≢◌, Bool, true, false, not, ◌&&◌, [], ◌∷◌, ◌++◌, append_assoc, append-nil,
  arith, ◌==◌, length, All, ◌∙◌,
}
use simple_http_server.Base.Bytes.{Bytes, isalpha}
use simple_http_server.Log.Pattern.{Cursor, scan, scan_byte, advance, Lexer, lex, starts_percent}

-- Letters only, and at least one.
abbrev pub AllAlpha : Bytes → Type 0
AllAlpha = All (λ c. isalpha c ≡ true)

abbrev pub IsName : Bytes → Type 0
IsName [] = ⊥
IsName (c ∷ cs) = AllAlpha (c ∷ cs)

abbrev pub stops : ℕ → Bool
stops c = not (isalpha c) && (not (c == b'{') && not (c == b'}'))

-- A directive with no braces ends at the end of the pattern, or before such a byte.
abbrev pub Stops : Bytes → Type 0
Stops [] = Unit
Stops (c ∷ rest) = stops c ≡ true

abbrev pub bare_cursor : Bytes → Cursor
bare_cursor passed = record { in_braces = false; passed = passed; str = []; inside = [] }

scan_stop :
    (k : Cursor) (rest : Bytes)
    → k.in_braces ≡ false
    → (rest ≡ [] → k.str ≡ k.passed)
    → Stops rest
    → scan k rest ≡ record { in_braces = false; str = k.passed; fmt = []; used = length k.passed }
unfolding scan scan_byte
scan_stop k [] e last h = ground (arith, last refl)
scan_stop k (c ∷ rest) e last h = ground arith

scan_letter :
    (passed : Bytes) (c d : ℕ) (rest : Bytes)
    → isalpha c ≡ true
    → scan (bare_cursor passed) (c ∷ d ∷ rest) ≡ scan (bare_cursor (passed ++ c ∷ [])) (d ∷ rest)
unfolding scan scan_byte isalpha
scan_letter passed c d rest h = ground arith

-- A name with no braces behind it is read whole.
pub scan_name :
    (passed : Bytes) (c : ℕ) (n rest : Bytes)
    → AllAlpha (c ∷ n)
    → Stops rest
    → scan (bare_cursor passed) (c ∷ (n ++ rest)) ≡ record {
      in_braces = false;
      str = passed ++ c ∷ n;
      fmt = [];
      used = length (passed ++ c ∷ n);
    }
scan_name passed c [] [] h s = unfold scan scan_byte isalpha in ground arith
scan_name passed c [] (d ∷ rest) h s =
    scan_letter passed c d rest h.0 ∙ scan_stop _ (d ∷ rest) refl (λ e. cc) s
scan_name passed c (d ∷ n) rest h s =
    scan_letter passed c d (n ++ rest) h.0
    ∙ scan_name (passed ++ c ∷ []) d n rest h.1 s
    ∙ simp append_assoc

scan_inside :
    (passed str inside : Bytes) (c d : ℕ) (rest : Bytes)
    → c ≢ b'}'
    → scan (record { in_braces = true; passed = passed; str = str; inside = inside }) (c ∷ d ∷ rest)
      ≡ scan
          (record {
            in_braces = true;
            passed = passed ++ c ∷ [];
            str = str;
            inside = inside ++ c ∷ [];
          })
          (d ∷ rest)
unfolding scan scan_byte
scan_inside passed str inside c d rest h = ground arith

-- No closing brace.
abbrev pub IsOpen : Bytes → Type 0
IsOpen = All (λ c. c ≢ b'}')

-- Inside braces everything up to the closing one is the argument.
pub scan_fmt :
    (passed str inside f rest : Bytes)
    → IsOpen f
    → scan
        (record { in_braces = true; passed = passed; str = str; inside = inside })
        (f ++ (b'}' ∷ rest))
      ≡ record { in_braces = false; str = str; fmt = inside ++ f; used = length (passed ++ f) + 1 }
scan_fmt passed str inside [] rest h = rw (append-nil, append-nil) (unfold scan scan_byte in refl)
scan_fmt passed str inside (c ∷ []) rest h =
    scan_inside passed str inside c b'}' rest h.0
    ∙ scan_fmt (passed ++ c ∷ []) str (inside ++ c ∷ []) [] rest tt
    ∙ simp (append_assoc, append-nil)
scan_fmt passed str inside (c ∷ d ∷ f) rest h =
    scan_inside passed str inside c d (f ++ (b'}' ∷ rest)) h.0
    ∙ scan_fmt (passed ++ c ∷ []) str (inside ++ c ∷ []) (d ∷ f) rest h.1
    ∙ simp append_assoc

-- With no closing brace the loop runs to the end of the pattern, inside the braces.
pub scan_open :
    (k : Cursor) (f : Bytes) → k.in_braces ≡ true → IsOpen f → (scan k f).in_braces ≡ true
unfolding scan scan_byte
scan_open k [] e h = e
scan_open k (c ∷ f) e h = ground (arith, scan_open (advance k c f) f e h.1, h.0)

abbrev pub brace_cursor : Bytes → Cursor
brace_cursor n = record { in_braces = true; passed = n ++ b'{' ∷ []; str = n; inside = [] }

scan_brace :
    (passed rest : Bytes)
    → scan (bare_cursor passed) (b'{' ∷ rest) ≡ scan (brace_cursor passed) rest
unfolding scan scan_byte isalpha
scan_brace passed rest = refl

-- A name with a brace behind it.
pub scan_name_brace :
    (passed n rest : Bytes)
    → AllAlpha n
    → scan (bare_cursor passed) (n ++ (b'{' ∷ rest)) ≡ scan (brace_cursor (passed ++ n)) rest
scan_name_brace passed [] rest h = rw append-nil (scan_brace passed rest)
scan_name_brace passed (c ∷ []) rest h =
    scan_letter passed c b'{' rest h.0 ∙ scan_brace (passed ++ c ∷ []) rest
scan_name_brace passed (c ∷ d ∷ n) rest h =
    scan_letter passed c d (n ++ (b'{' ∷ rest)) h.0
    ∙ scan_name_brace (passed ++ c ∷ []) (d ∷ n) rest h.1
    ∙ simp append_assoc

-- The outer loop passes over what the inner loop has read.
pub lex-append : (w rest : Bytes) (s : Lexer) → lex (length w) s (w ++ rest) ≡ lex 0 s rest
unfolding lex
lex-append [] rest s = refl
lex-append (c ∷ w) rest s = lex-append w rest s

-- A letter is no `%`.
pub starts_percent-alpha :
    (c : ℕ) (rest : Bytes) → isalpha c ≡ true → starts_percent (c ∷ rest) ≡ false
unfolding isalpha
starts_percent-alpha c rest h = ground arith
