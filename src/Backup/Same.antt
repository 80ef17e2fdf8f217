-- ===== src/Backup/Same.antt =====
-- Where the earlier logging module and the one in src/_log do the same.
use simple_http_server.Base.{
  ℕ, zero, suc, ◌+◌, ◌≡◌, refl, sym, ap, ◌∙◌, Bool, true, false, not, ◌&&◌, List, [], ◌∷◌, ◌⊎◌, inl,
  inr, ◌==◌, arith, Bool-cases,
}
use simple_http_server.Base.Bytes.{Bytes}
use simple_http_server.Log.Level.{LogLevel}
use simple_http_server.Log.Event.{LogEvent}
use simple_http_server.Log.Pattern
use simple_http_server.Log.Pattern.{
  Cursor, Scan, Lexer, directive_end, lex_finish, lex_start, scan_start, starts_percent,
}
use simple_http_server.Log.Formatter
use simple_http_server.Log.Formatter.{Item, date_time, Calendar, LogFormatter, build_items}
use simple_http_server.Backup.Pattern.{scan_byte, scan, lex_byte, lex, tokenize}
use simple_http_server.Backup.Formatter.{new_formatter, format_item, format_all}

unfoldable pub has_no_brace : Bytes → Bool
has_no_brace [] = true
has_no_brace (c ∷ rest) = not (c == b'{') && has_no_brace rest

scan_byte_lem :
    (i : ℕ) (k : Cursor) (c : ℕ) (rest : Bytes)
    → (c == b'{') ≡ false
    → scan_byte i k c rest ≡ Pattern.scan_byte k c rest
unfolding scan_byte Pattern.scan_byte
scan_byte_lem i k c rest e = elim (Bool-cases k.in_braces) [
  | inl b ↦ rw (b) refl
  | inr b ↦ rw (b, e) refl
]

-- The inner loop behind one round.
abbrev goes_on : (Cursor → Scan) → Scan ⊎ Cursor → Scan
goes_on next (inl done) = done
goes_on next (inr k) = next k

goes_on_same :
    (f g : Cursor → Scan) (x : Scan ⊎ Cursor)
    → ((k : Cursor) → f k ≡ g k)
    → goes_on f x ≡ goes_on g x
goes_on_same f g (inl done) e = refl
goes_on_same f g (inr k) e = e k

scan_next :
    (i : ℕ) (k : Cursor) (c : ℕ) (rest : Bytes)
    → scan i k (c ∷ rest) ≡ goes_on (λ k'. scan i k' rest) (scan_byte i k c rest)
unfolding scan
scan_next i k c rest = refl

pattern_scan_next :
    (k : Cursor) (c : ℕ) (rest : Bytes)
    → Pattern.scan k (c ∷ rest) ≡ goes_on (λ k'. Pattern.scan k' rest) (Pattern.scan_byte k c rest)
unfolding Pattern.scan
pattern_scan_next k c rest = refl

scan_lem : (i : ℕ) (s : Bytes) (k : Cursor) → has_no_brace s ≡ true → scan i k s ≡ Pattern.scan k s
unfolding scan Pattern.scan has_no_brace
scan_lem i [] k h = refl
scan_lem i (c ∷ rest) k h =
    scan_next i k c rest
    ∙ (ap (goes_on (λ k'. scan i k' rest)) (scan_byte_lem i k c rest (ground (arith, h)))
        ∙ (goes_on_same (λ k'. scan i k' rest) (λ k'. Pattern.scan k' rest)
              (Pattern.scan_byte k c rest) (λ k'. scan_lem i rest k' (ground (arith, h)))
            ∙ sym (pattern_scan_next k c rest)))

lex_byte_lem :
    (i : ℕ) (s : Lexer) (c : ℕ) (rest : Bytes)
    → has_no_brace rest ≡ true
    → lex_byte i s c rest ≡ Pattern.lex_byte s c rest
unfolding lex_byte Pattern.lex_byte
lex_byte_lem i s c rest h = rw (scan_lem i rest scan_start h) refl

lex_lem :
    (i skip : ℕ) (l : Lexer) (s : Bytes)
    → has_no_brace s ≡ true
    → lex i skip l s ≡ Pattern.lex skip l s
unfolding lex Pattern.lex has_no_brace
lex_lem i skip l [] h = refl
lex_lem i (suc skip) l (c ∷ rest) h = lex_lem (i + 1) skip l rest (ground (arith, h))
lex_lem i zero l (c ∷ rest) h =
    let h' : has_no_brace rest ≡ true = ground (arith, h) in
    rw (lex_byte_lem i l c rest h')
      (lex_lem (i + 1) (Pattern.lex_byte l c rest).1 (Pattern.lex_byte l c rest).0 rest h')

-- A pattern without braces is cut into the same pieces.
pub tokenize_lem : (p : Bytes) → has_no_brace p ≡ true → tokenize p ≡ Pattern.tokenize p
unfolding tokenize Pattern.tokenize
tokenize_lem p h = ap lex_finish (lex_lem 0 0 lex_start p h)

pub new_formatter_lem :
    (p : Bytes) → has_no_brace p ≡ true → new_formatter p ≡ Formatter.new_formatter p
unfolding new_formatter Formatter.new_formatter
new_formatter_lem p h =
    ap
      (λ t.
        let (items, failed) = build_items t.0 t.1 in
        record { pattern = p; items = items; failed = failed })
      (tokenize_lem p h)

abbrev is_date : Item → Bool
is_date (date_time fmt) = true
is_date _ = false

unfoldable pub has_no_date : List Item → Bool
has_no_date [] = true
has_no_date (it ∷ items) = not (is_date it) && has_no_date items

module _ (cal : Calendar) where
  format_item_lem :
      (logger : Bytes) (lvl : LogLevel) (event : LogEvent) (it : Item)
      → is_date it ≡ false
      → format_item logger lvl event it ≡ Formatter.format_item cal logger lvl event it
  unfolding format_item Formatter.format_item
  format_item_lem logger lvl event it e = ground (arith, e)

  pub format_all_lem :
      (logger : Bytes) (lvl : LogLevel) (event : LogEvent) (items : List Item)
      → has_no_date items ≡ true
      → format_all logger lvl event items ≡ Formatter.format_all cal logger lvl event items
  unfolding format_all Formatter.format_all has_no_date
  format_all_lem logger lvl event [] h = refl
  format_all_lem logger lvl event (it ∷ items) h =
      rw
        (
          format_item_lem logger lvl event it (ground (arith, h)),
          format_all_lem logger lvl event items (ground (arith, h)),
        )
        refl
