-- ===== src/Backup/Pattern.antt =====
-- backup/log.cpp, `LogFormatter::init`, first half: what it does with braces, and otherwise the
-- code of src/_log/log.cpp.
use simple_http_server.Base.{
  ℕ, zero, suc, ◌+◌, ◌*◌, ◌-◌, ◌%◌, ◌^◌, Bool, true, false, not, ◌&&◌, List, [], ◌∷◌, ◌++◌, ◌⊎◌,
  inl, inr, ◌==◌, if◌then◌else◌, length, take,
}
use simple_http_server.Base.Bytes.{Bytes, isalpha}
use simple_http_server.Log.Pattern.{
  Piece, Cursor, Scan, advance, scan_start, Lexer, directive_end, starts_percent, lex_start,
  lex_finish,
}

-- `n - i - i` on `size_t`, where `n` stands `passed` bytes behind `i + 1`.
abbrev pub brace_count : ℕ → ℕ → ℕ
brace_count i passed = ((i + 1 + passed) + 2 * (2 ^ 64 - i)) % 2 ^ 64

-- One round of the inner loop for the directive at `i`.
unfoldable pub scan_byte : ℕ → Cursor → ℕ → Bytes → Scan ⊎ Cursor
unfolding take
scan_byte i k c rest =
    if not k.in_braces && (not (isalpha c) && (not (c == b'{') && not (c == b'}')))
    then inl (record { in_braces = false; str = k.passed; fmt = []; used = length k.passed })
    else if not k.in_braces && c == b'{'
    then inr (record {
      in_braces = true;
      passed = k.passed ++ c ∷ [];
      str = take (brace_count i (length k.passed)) (k.passed ++ c ∷ rest);
      inside = [];
    })
    else if k.in_braces && c == b'}'
    then inl (record { in_braces = false; str = k.str; fmt = k.inside; used = length k.passed + 1 })
    else inr (advance k c rest)

unfoldable pub scan : ℕ → Cursor → Bytes → Scan
unfolding scan_byte
scan i k [] = record { in_braces = k.in_braces; str = k.str; fmt = []; used = length k.passed }
scan i k (c ∷ rest) = elim (scan_byte i k c rest) [ inl done ↦ done | inr k' ↦ scan i k' rest ]

unfoldable pub lex_byte : ℕ → Lexer → ℕ → Bytes → Lexer × ℕ
unfolding scan directive_end
lex_byte i s c rest =
    if not (c == b'%')
    then (record s { nstr = s.nstr ++ c ∷ [] }, 0)
    else if starts_percent rest
    then (record s { nstr = s.nstr ++ b'%' ∷ [] }, 0)
    else directive_end s (scan i scan_start rest)

-- `for (size_t i = 0; i < m_pattern.size(); ++i)`
unfoldable pub lex : ℕ → ℕ → Lexer → Bytes → Lexer
unfolding lex_byte
lex i skip s [] = s
lex i (suc skip) s (c ∷ rest) = lex (i + 1) skip s rest
lex i zero s (c ∷ rest) = let (s', skip) = lex_byte i s c rest in lex (i + 1) skip s' rest

unfoldable pub tokenize : Bytes → List Piece × Bool
unfolding lex
tokenize p = lex_finish (lex 0 0 lex_start p)
