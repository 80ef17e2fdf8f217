-- ===== src/Log/Formatter/Errors.antt =====
-- Which patterns leave `m_error` set.
use simple_http_server.Base.{
  ℕ, ◌≡◌, refl, Bool, true, false, not, ◌||◌, ◌&&◌, List, [], ◌∷◌, ◌++◌, arith, ◌==◌, Bool-cases,
  inl, inr,
}
use simple_http_server.Base.Bytes.{Bytes, codes}
use simple_http_server.Base.Dict.{find}
use simple_http_server.Log.Pattern.{Piece, text, directive, tokenize, starts_percent}
use simple_http_server.Log.Pattern.Inner.{IsName, Stops, IsOpen}
use simple_http_server.Log.Pattern.RoundTrip.{IsPlain, IsPrintable, print, tokenize-print}
use simple_http_server.Log.Pattern.Errors.{tokenize_unclosed, tokenize_double_percent}
use simple_http_server.Log.Formatter.Table.{
  Table, pick, find-singles, find-singles_nil, find-singles_long, letters, format_items-letters,
}
use simple_http_server.Log.Formatter.{
  Item, format_items, found_item, piece_item, build_items, new_formatter,
}

-- The letters of the directives.
abbrev pub one_of : ℕ → Bytes → Bool
one_of c [] = false
one_of c (d ∷ ds) = d == c || one_of c ds

abbrev pub is_known : Bytes → Bool
is_known (c ∷ []) = one_of c (codes "mprctndflTFN")
is_known _ = false

abbrev keys : Table Item → Bytes
keys [] = []
keys ((l, it) ∷ t) = l ∷ keys t

pick-failed :
    (str : Bytes) (c : ℕ) (t : Table Item) → (found_item str (pick c t)).1 ≡ not (one_of c (keys t))
unfolding found_item
pick-failed str c [] = refl
pick-failed str c ((l, it) ∷ t) = elim (Bool-cases (l == c)) [
  | inl hit ↦ rw hit refl
  | inr miss ↦ rw miss (pick-failed str c t)
]

found_item-failed :
    (str fmt : Bytes) → (found_item str (find str (format_items fmt))).1 ≡ not (is_known str)
found_item-failed [] fmt =
    rw (format_items-letters fmt, find-singles_nil (letters fmt)) (unfold found_item in refl)
found_item-failed (c ∷ []) fmt =
    rw (format_items-letters fmt, find-singles c (letters fmt))
      (pick-failed (c ∷ []) c (letters fmt))
found_item-failed (c ∷ d ∷ str) fmt =
    rw (format_items-letters fmt, find-singles_long c d str (letters fmt))
      (unfold found_item in refl)

abbrev pub is_known_piece : Piece → Bool
is_known_piece (text t) = true
is_known_piece (directive str fmt) = is_known str

abbrev pub all_known : List Piece → Bool
all_known [] = true
all_known (p ∷ ps) = is_known_piece p && all_known ps

piece_item-failed : (p : Piece) → (piece_item p).1 ≡ not (is_known_piece p)
unfolding piece_item
piece_item-failed (text t) = refl
piece_item-failed (directive str fmt) = found_item-failed str fmt

build_items-failed :
    (ps : List Piece) (failed : Bool) → (build_items ps failed).1 ≡ (failed || not (all_known ps))
unfolding build_items
build_items-failed [] failed = ground arith
build_items-failed (p ∷ ps) failed =
    ground (arith, piece_item-failed p, build_items-failed ps (failed || (piece_item p).1))

new_formatter-failed :
    (p : Bytes) → (new_formatter p).failed ≡ ((tokenize p).1 || not (all_known (tokenize p).0))
unfolding new_formatter
new_formatter-failed p = build_items-failed (tokenize p).0 (tokenize p).1

-- A printed pattern sets `m_error` exactly when one of its directives is none of the twelve known
-- letters.
pub new_formatter-print-failed :
    (ps : List Piece) → IsPrintable ps → (new_formatter (print ps)).failed ≡ not (all_known ps)
new_formatter-print-failed ps h = rw (new_formatter-failed (print ps), tokenize-print ps h) refl

-- A brace that is never closed is an error.
pub new_formatter_unclosed :
    (t n rest : Bytes)
    → IsPlain t
    → IsName n
    → IsOpen rest
    → (new_formatter (t ++ (b'%' ∷ (n ++ (b'{' ∷ rest))))).failed ≡ true
new_formatter_unclosed t n rest plain h k =
    rw
      (
        new_formatter-failed (t ++ (b'%' ∷ (n ++ (b'{' ∷ rest)))),
        tokenize_unclosed t n rest plain h k,
      )
      refl

-- A pattern that contains `%%`, with no `%` before it, sets `m_error` unless a letter, a brace or
-- a third `%` follows: the doubled sign is no escape.
pub new_formatter_double_percent :
    (t rest : Bytes)
    → IsPlain t
    → Stops rest
    → starts_percent rest ≡ false
    → (new_formatter (t ++ (b'%' ∷ b'%' ∷ rest))).failed ≡ true
new_formatter_double_percent t rest plain h k =
    rw (new_formatter-failed (t ++ (b'%' ∷ b'%' ∷ rest)), tokenize_double_percent t rest plain h k)
      (ground arith)
