-- ===== src/Log/Pattern.antt =====
-- src/_log/log.cpp, `LogFormatter::init`, first half: the pattern is cut into pieces of plain
-- text and directives `%name{fmt}`. An index into the pattern is the list of the bytes from there
-- on; `i = n - 1` is a number of bytes that the outer loop passes over.
pub mod Inner
pub mod Errors
pub mod RoundTrip
use simple_http_server.Base.{
  ℕ, zero, suc, ◌+◌, Bool, true, false, not, ◌&&◌, List, [], ◌∷◌, ◌++◌, ◌⊎◌, inl, inr, ◌==◌,
  if◌then◌else◌, length, is_empty,
}
use simple_http_server.Base.Bytes.{Bytes, codes, isalpha}

-- An entry of `vec`: the tuples with the third component 0 and 1. The second component of a
-- tuple of the first kind is never read.
pub data Piece : Type 0 where
  text : Bytes → Piece
  directive : Bytes → Bytes → Piece

-- The variables of the inner loop: `fmt_status`, the bytes from `i + 1` to `n`, `str`, and the
-- bytes from `fmt_begin + 1` to `n`.
pub record Cursor : Type 0 where
  pub in_braces : Bool
  pub passed : Bytes
  pub str : Bytes
  pub inside : Bytes

-- The inner loop's result: `fmt_status`, `str`, `fmt` and `n - i - 1`.
pub record Scan : Type 0 where
  pub in_braces : Bool
  pub str : Bytes
  pub fmt : Bytes
  pub used : ℕ

-- The end of the inner loop's body: `++n`, and the test for the end of the pattern.
abbrev pub advance : Cursor → ℕ → Bytes → Cursor
advance k c rest = record {
  in_braces = k.in_braces;
  passed = k.passed ++ c ∷ [];
  str = if is_empty rest && is_empty k.str then k.passed ++ c ∷ [] else k.str;
  inside = if k.in_braces then k.inside ++ c ∷ [] else k.inside;
}

-- One round of the inner loop: it breaks with a result, or goes on.
unfoldable pub scan_byte : Cursor → ℕ → Bytes → Scan ⊎ Cursor
scan_byte k c rest =
    if not k.in_braces && (not (isalpha c) && (not (c == b'{') && not (c == b'}')))
    then inl (record { in_braces = false; str = k.passed; fmt = []; used = length k.passed })
    else if not k.in_braces && c == b'{'
    then inr (record { in_braces = true; passed = k.passed ++ c ∷ []; str = k.passed; inside = [] })
    else if k.in_braces && c == b'}'
    then inl (record { in_braces = false; str = k.str; fmt = k.inside; used = length k.passed + 1 })
    else inr (advance k c rest)

-- `while (n < m_pattern.size())`
unfoldable pub scan : Cursor → Bytes → Scan
scan k [] = record { in_braces = k.in_braces; str = k.str; fmt = []; used = length k.passed }
scan k (c ∷ rest) = elim (scan_byte k c rest) [ inl done ↦ done | inr k' ↦ scan k' rest ]

abbrev pub scan_start : Cursor
scan_start = record { in_braces = false; passed = []; str = []; inside = [] }

-- The variables of the outer loop.
pub record Lexer : Type 0 where
  pub vec : List Piece
  pub nstr : Bytes
  pub failed : Bool

abbrev pub pattern_error : Bytes
pattern_error = codes "<<pattern_error>>"

-- Text read before is pushed first, if there is any.
unfoldable pub flush : List Piece → Bytes → List Piece
flush vec [] = vec
flush vec (c ∷ cs) = vec ++ text (c ∷ cs) ∷ []

-- Behind the inner loop, on `fmt_status`.
unfoldable pub directive_end : Lexer → Scan → Lexer × ℕ
unfolding flush
directive_end s r =
    if r.in_braces
    then (record s { vec = s.vec ++ text pattern_error ∷ []; failed = true }, 0)
    else (record s { vec = flush s.vec s.nstr ++ directive r.str r.fmt ∷ []; nstr = [] }, r.used)

abbrev pub starts_percent : Bytes → Bool
starts_percent [] = false
starts_percent (c ∷ rest) = c == b'%'

-- The body of the outer loop at byte `c`, with how many bytes the loop passes over next.
unfoldable pub lex_byte : Lexer → ℕ → Bytes → Lexer × ℕ
unfolding directive_end
lex_byte s c rest =
    if not (c == b'%')
    then (record s { nstr = s.nstr ++ c ∷ [] }, 0)
    else if starts_percent rest
    then (record s { nstr = s.nstr ++ b'%' ∷ [] }, 0)
    else directive_end s (scan scan_start rest)

-- `for (size_t i = 0; i < m_pattern.size(); ++i)`
unfoldable pub lex : ℕ → Lexer → Bytes → Lexer
lex skip s [] = s
lex (suc skip) s (c ∷ rest) = lex skip s rest
lex zero s (c ∷ rest) = let (s', skip) = lex_byte s c rest in lex skip s' rest

abbrev pub lex_start : Lexer
lex_start = record { vec = []; nstr = []; failed = false }

abbrev pub lex_finish : Lexer → List Piece × Bool
lex_finish s = (flush s.vec s.nstr, s.failed)

-- The pieces of a pattern, and `m_error` so far.
unfoldable pub tokenize : Bytes → List Piece × Bool
unfolding lex lex_byte scan scan_byte
tokenize p = lex_finish (lex 0 lex_start p)
