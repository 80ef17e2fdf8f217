-- ===== src/Log/Pattern/Errors.antt =====
-- Patterns that `LogFormatter::init` rejects: a brace that is never closed, and the doubled `%`.
use simple_http_server.Base.{
  ℕ, zero, suc, ◌≡◌, refl, true, false, List, [], ◌∷◌, ◌++◌, append_assoc, arith, ◌∙◌, ap, ◌==◌,
  Bool-cases, inl, inr,
}
use simple_http_server.Base.Bytes.{Bytes}
use simple_http_server.Log.Pattern.{
  Piece, text, directive, Scan, scan, scan_byte, scan_start, Lexer, lex, lex_byte, lex_start,
  lex_finish, flush, directive_end, tokenize, starts_percent, pattern_error,
}
use simple_http_server.Log.Pattern.Inner.{
  IsName, Stops, IsOpen, brace_cursor, scan_name_brace, scan_open, starts_percent-alpha,
}
use simple_http_server.Log.Pattern.RoundTrip.{IsPlain, lex_plain, lex-step, lex_directive}

-- `m_error` is never cleared.
lex_byte-failed :
    (s : Lexer) (c : ℕ) (rest : Bytes) → s.failed ≡ true → (lex_byte s c rest).0.failed ≡ true
unfolding lex_byte directive_end
lex_byte-failed s c rest e = ground arith

lex-failed : (k : ℕ) (s : Lexer) (p : Bytes) → s.failed ≡ true → (lex k s p).failed ≡ true
unfolding lex
lex-failed k s [] e = e
lex-failed (suc k) s (c ∷ rest) e = lex-failed k s rest e
lex-failed zero s (c ∷ rest) e =
    lex-failed (lex_byte s c rest).1 (lex_byte s c rest).0 rest (lex_byte-failed s c rest e)

lex_unclosed :
    (n rest : Bytes) (s : Lexer)
    → IsName n
    → IsOpen rest
    → (lex 0 s (b'%' ∷ (n ++ (b'{' ∷ rest)))).failed ≡ true
lex_unclosed [] rest s h k = elim h [ ]
lex_unclosed (c ∷ n) rest s h k =
    ap (λ (u : Lexer). u.failed)
      (lex-step s b'%' ((c ∷ n) ++ (b'{' ∷ rest))
        (record s { vec = s.vec ++ text pattern_error ∷ []; failed = true }) 0
        (unfold lex_byte directive_end in
          rw
            (
              starts_percent-alpha c (n ++ (b'{' ∷ rest)) h.0,
              scan_name_brace [] (c ∷ n) rest h,
              scan_open (brace_cursor (c ∷ n)) rest refl k,
            )
            refl))
    ∙ lex-failed 0 _ ((c ∷ n) ++ (b'{' ∷ rest)) refl

-- A directive whose brace is never closed is an error, whatever stands behind the brace.
pub tokenize_unclosed :
    (t n rest : Bytes)
    → IsPlain t
    → IsName n
    → IsOpen rest
    → (tokenize (t ++ (b'%' ∷ (n ++ (b'{' ∷ rest))))).1 ≡ true
unfolding tokenize
tokenize_unclosed t n rest plain h k =
    ap (λ (u : Lexer). u.failed) (lex_plain t _ lex_start plain)
    ∙ lex_unclosed n rest (record lex_start { nstr = t }) h k

-- The pieces found so far stay in front.
abbrev prepend : List Piece → Lexer → Lexer
prepend v s = record s { vec = v ++ s.vec }

flush-append : (v w : List Piece) (t : Bytes) → flush (v ++ w) t ≡ v ++ flush w t
unfolding flush
flush-append v w [] = refl
flush-append v w (c ∷ t) = append_assoc v w (text (c ∷ t) ∷ [])

directive_end-prepend :
    (v : List Piece) (s : Lexer) (r : Scan)
    → directive_end (prepend v s) r ≡ (prepend v (directive_end s r).0, (directive_end s r).1)
unfolding directive_end
directive_end-prepend v s r = elim (Bool-cases r.in_braces) [
  | inl inside ↦ rw inside (simp append_assoc)
  | inr outside ↦ rw outside (rw flush-append (simp append_assoc))
]

lex_byte-prepend :
    (v : List Piece) (s : Lexer) (c : ℕ) (rest : Bytes)
    → lex_byte (prepend v s) c rest ≡ (prepend v (lex_byte s c rest).0, (lex_byte s c rest).1)
lex_byte-prepend v s c rest = elim (Bool-cases (c == b'%')) [
  | inl percent ↦ elim (Bool-cases (starts_percent rest)) [
    | inl two ↦ unfold lex_byte in rw (percent, two) refl
    | inr one ↦ unfold lex_byte in rw (percent, one) (directive_end-prepend v s _)
  ]
  | inr plain ↦ unfold lex_byte in rw plain refl
]

lex-prepend :
    (k : ℕ) (v : List Piece) (s : Lexer) (p : Bytes) → lex k (prepend v s) p ≡ prepend v (lex k s p)
unfolding lex
lex-prepend k v s [] = refl
lex-prepend (suc k) v s (c ∷ rest) = lex-prepend k v s rest
lex-prepend zero v s (c ∷ rest) =
    ap (λ (r : Lexer × ℕ). lex r.1 r.0 rest) (lex_byte-prepend v s c rest)
    ∙ lex-prepend (lex_byte s c rest).1 v (lex_byte s c rest).0 rest

scan_nothing :
    (rest : Bytes)
    → Stops rest
    → scan scan_start rest ≡ record { in_braces = false; str = []; fmt = []; used = 0 }
unfolding scan scan_byte
scan_nothing [] h = refl
scan_nothing (c ∷ rest) h = ground arith

lex_finish-prepend :
    (v : List Piece) (s : Lexer)
    → lex_finish (prepend v s) ≡ (v ++ (lex_finish s).0, (lex_finish s).1)
lex_finish-prepend v s = ap (λ w. (w, s.failed)) (flush-append v s.vec s.nstr)

flush_percent :
    (t : Bytes)
    → flush [] (t ++ b'%' ∷ []) ++ directive [] [] ∷ []
      ≡ text (t ++ b'%' ∷ []) ∷ directive [] [] ∷ []
unfolding flush
flush_percent [] = refl
flush_percent (c ∷ t) = refl

-- The doubled percent sign is not an escape: the loop adds one `%` to the text and goes on at the
-- second, which then starts a directive with no name.
pub tokenize_double_percent :
    (t rest : Bytes)
    → IsPlain t
    → Stops rest
    → starts_percent rest ≡ false
    → tokenize (t ++ (b'%' ∷ b'%' ∷ rest))
      ≡ (text (t ++ b'%' ∷ []) ∷ directive [] [] ∷ (tokenize rest).0, (tokenize rest).1)
unfolding tokenize
tokenize_double_percent t rest plain h k =
    ap lex_finish (
      lex_plain t (b'%' ∷ b'%' ∷ rest) lex_start plain
      ∙ lex-step (record lex_start { nstr = t }) b'%' (b'%' ∷ rest)
          (record lex_start { nstr = t ++ b'%' ∷ [] }) 0 (unfold lex_byte in refl)
      ∙ lex_directive (record lex_start { nstr = t ++ b'%' ∷ [] }) [] rest k (scan_nothing rest h)
      ∙ ap (λ v. lex 0 (record lex_start { vec = v }) rest) (flush_percent t)
      ∙ lex-prepend 0 (text (t ++ b'%' ∷ []) ∷ directive [] [] ∷ []) lex_start rest)
    ∙ lex_finish-prepend (text (t ++ b'%' ∷ []) ∷ directive [] [] ∷ []) (lex 0 lex_start rest)
