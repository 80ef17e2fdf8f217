-- ===== src/Log/Formatter/Output.antt =====
-- What a formatter writes, piece by piece of its pattern.
use simple_http_server.Base.{
  ℕ, ◌≡◌, refl, Bool, false, ◌||◌, List, [], ◌∷◌, ◌++◌, Option, none, some, arith, ap, ◌∙◌,
  if◌then◌else◌, ◌==◌, Bool-cases, inl, inr, is_empty,
}
use simple_http_server.Base.Bytes.{Bytes, decimal}
use simple_http_server.Base.Int.{decimal_int}
use simple_http_server.Log.Level.{LogLevel, to_string}
use simple_http_server.Log.Event.{LogEvent}
use simple_http_server.Log.Pattern.{Piece, text, directive}
use simple_http_server.Log.Pattern.RoundTrip.{IsPrintable, print, tokenize-print}
use simple_http_server.Log.Formatter.Table.{
  Table, pick, find-singles, find-singles_nil, find-singles_long, letters, format_items-letters,
}
use simple_http_server.Log.Formatter.{
  Calendar, Item, found_item, piece_item, build_items, new_formatter, format_item, format_all,
  format, format_date, safe_localtime, default_date, unknown_directive, new_date_time,
}

module _ (cal : Calendar) (logger : Bytes) (lvl : LogLevel) (event : LogEvent) where
  -- What each directive letter stands for.
  abbrev pub letter_texts : Bytes → Table Bytes
  letter_texts fmt =
      (b'm', event.content)
      ∷ (b'p', to_string lvl)
      ∷ (b'r', decimal event.elapse)
      ∷ (b'c', logger)
      ∷ (b't', decimal event.thread_id)
      ∷ (b'n', b'\n' ∷ [])
      ∷ (
        b'd',
        format_date cal (if is_empty fmt then default_date else fmt)
            (safe_localtime cal event.time),
      )
      ∷ (b'f', event.file)
      ∷ (b'l', decimal_int event.line)
      ∷ (b'T', b'\t' ∷ [])
      ∷ (b'F', decimal event.fiber_id)
      ∷ (b'N', event.thread_name)
      ∷ []

  abbrev pub text_or_unknown : Bytes → Option Bytes → Bytes
  text_or_unknown str none = unknown_directive str
  text_or_unknown str (some t) = t

  abbrev pub piece_text : Piece → Bytes
  piece_text (text t) = t
  piece_text (directive (c ∷ []) fmt) = text_or_unknown (c ∷ []) (pick c (letter_texts fmt))
  piece_text (directive str fmt) = unknown_directive str

  abbrev pub pattern_text : List Piece → Bytes
  pattern_text [] = []
  pattern_text (p ∷ ps) = piece_text p ++ pattern_text ps

  abbrev texts : Table Item → Table Bytes
  texts [] = []
  texts ((l, it) ∷ t) = (l, format_item cal logger lvl event it) ∷ texts t

  pick-texts :
      (str : Bytes) (c : ℕ) (t : Table Item)
      → format_item cal logger lvl event (found_item str (pick c t)).0
        ≡ text_or_unknown str (pick c (texts t))
  unfolding found_item format_item
  pick-texts str c [] = refl
  pick-texts str c ((l, it) ∷ t) = elim (Bool-cases (l == c)) [
    | inl hit ↦ rw hit refl
    | inr miss ↦ rw miss (pick-texts str c t)
  ]

  texts-letters : (fmt : Bytes) → texts (letters fmt) ≡ letter_texts fmt
  unfolding format_item new_date_time
  texts-letters fmt = refl

  piece_item-text : (p : Piece) → format_item cal logger lvl event (piece_item p).0 ≡ piece_text p
  unfolding piece_item
  piece_item-text (text t) = unfold format_item in refl
  piece_item-text (directive [] fmt) =
      rw (format_items-letters fmt, find-singles_nil (letters fmt))
        (unfold format_item found_item in refl)
  piece_item-text (directive (c ∷ []) fmt) =
      rw (format_items-letters fmt, find-singles c (letters fmt))
        (pick-texts (c ∷ []) c (letters fmt)
          ∙ ap (λ t. text_or_unknown (c ∷ []) (pick c t)) (texts-letters fmt))
  piece_item-text (directive (c ∷ d ∷ str) fmt) =
      rw (format_items-letters fmt, find-singles_long c d str (letters fmt))
        (unfold format_item found_item in refl)

  build_items-text :
      (ps : List Piece) (failed : Bool)
      → format_all cal logger lvl event (build_items ps failed).0 ≡ pattern_text ps
  unfolding build_items format_all
  build_items-text [] failed = refl
  build_items-text (p ∷ ps) failed =
      ground (arith, piece_item-text p, build_items-text ps (failed || (piece_item p).1))

  -- A formatter made from the printed form of printable pieces writes, in order, each text as it
  -- stands and for each directive what its letter stands for (the message, the level, the date in
  -- the given or the default format, and so on), or a marker for an unknown directive.
  pub format-print :
      (ps : List Piece)
      → IsPrintable ps
      → format cal (new_formatter (print ps)) logger lvl event ≡ pattern_text ps
  unfolding format new_formatter
  format-print ps h =
      ap (λ (r : List Piece × Bool). format_all cal logger lvl event (build_items r.0 r.1).0)
        (tokenize-print ps h)
      ∙ build_items-text ps false
