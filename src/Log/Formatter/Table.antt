-- ===== src/Log/Formatter/Table.antt =====
-- `s_format_items` as a table of letters: a directive is known by its single letter.
use simple_http_server.Base.{
  ℕ, ◌≡◌, refl, List, [], ◌∷◌, Option, none, some, arith, if◌then◌else◌, ◌==◌,
}
use simple_http_server.Base.Bytes.{Bytes, same}
use simple_http_server.Base.Dict.{Dict, find}
use simple_http_server.Log.Formatter.{
  Item, format_items, new_date_time, message, level, elapse, name, thread_id, fiber_id, thread_name,
  filename, line, new_line, tab,
}

abbrev pub Table {ℓ} : Type ℓ → Type ℓ
Table V = List (ℕ × V)

module _ {ℓ} {V : Type ℓ} where
  abbrev pub singles : Table V → Dict V
  singles [] = []
  singles ((l, v) ∷ t) = (l ∷ [], v) ∷ singles t

  abbrev pub pick : ℕ → Table V → Option V
  pick c [] = none
  pick c ((l, v) ∷ t) = if l == c then some v else pick c t

  pub find-singles : (c : ℕ) (t : Table V) → find (c ∷ []) (singles t) ≡ pick c t
  unfolding find same
  find-singles c [] = refl
  find-singles c ((l, v) ∷ t) = ground (arith, find-singles c t)

  pub find-singles_nil : (t : Table V) → find [] (singles t) ≡ none
  unfolding find same
  find-singles_nil [] = refl
  find-singles_nil ((l, v) ∷ t) = find-singles_nil t

  pub find-singles_long :
      (c d : ℕ) (str : Bytes) (t : Table V) → find (c ∷ d ∷ str) (singles t) ≡ none
  unfolding find same
  find-singles_long c d str [] = refl
  find-singles_long c d str ((l, v) ∷ t) = ground (arith, find-singles_long c d str t)

abbrev pub letters : Bytes → Table Item
letters fmt =
    (b'm', message)
    ∷ (b'p', level)
    ∷ (b'r', elapse)
    ∷ (b'c', name)
    ∷ (b't', thread_id)
    ∷ (b'n', new_line)
    ∷ (b'd', new_date_time fmt)
    ∷ (b'f', filename)
    ∷ (b'l', line)
    ∷ (b'T', tab)
    ∷ (b'F', fiber_id)
    ∷ (b'N', thread_name)
    ∷ []

pub format_items-letters : (fmt : Bytes) → format_items fmt ≡ singles (letters fmt)
unfolding format_items
format_items-letters fmt = refl
