-- ===== src/Util/Trace.antt =====
-- What the text of a call stack holds.
use simple_http_server.Base.{
  ℕ, zero, suc, ◌≡◌, refl, sym, ap, ◌∙◌, List, [], ◌∷◌, ◌++◌, Option, none, some, take, drop,
  append-nil, append_assoc, Option-cases, inl, inr,
}
use simple_http_server.Base.Bytes.{Bytes}
use simple_http_server.Base.Int.{pos}
use simple_http_server.Util.{
  traced, undefined, first_index, push_from, backtrace, write_each, then_write, backtrace_to_string,
}

-- The names of the frames from an index on, each on a line of its own behind a prefix.
unfoldable pub lines : Bytes → List Bytes → Bytes
lines prefix [] = []
lines prefix (name ∷ names) = (prefix ++ (name ++ b'\n' ∷ [])) ++ lines prefix names

push_all : (names bt : List Bytes) → push_from zero names bt ≡ bt ++ names
unfolding push_from
push_all [] bt = sym (append-nil bt)
push_all (name ∷ names) bt = push_all names (bt ++ name ∷ []) ∙ append_assoc bt (name ∷ []) names

push_from-drop : (k : ℕ) (names bt : List Bytes) → push_from k names bt ≡ bt ++ drop k names
unfolding push_from drop
push_from-drop zero names bt = push_all names bt
push_from-drop (suc k) [] bt = sym (append-nil bt)
push_from-drop (suc k) (name ∷ names) bt = push_from-drop k names bt

write_each-lines :
    (prefix : Bytes) (names : List Bytes) (ss : Bytes)
    → write_each prefix names ss ≡ ss ++ lines prefix names
unfolding write_each lines
write_each-lines prefix [] ss = sym (append-nil ss)
write_each-lines prefix (name ∷ names) ss =
    write_each-lines prefix names (ss ++ (prefix ++ (name ++ b'\n' ∷ [])))
    ∙ append_assoc ss (prefix ++ (name ++ b'\n' ∷ [])) (lines prefix names)

-- When the names of the innermost `size` frames can be had, `BacktraceToString` writes those from
-- `skip` on, in order, each on a line of its own behind the prefix; when they cannot be had, its
-- behaviour is undefined.
pub backtrace_to_string-lines :
    (calls : List ℕ) (symbols : List ℕ → Option (List Bytes)) (size skip : ℕ) (prefix : Bytes)
    → backtrace_to_string calls symbols size (pos skip) prefix ≡ elim (symbols (take size calls)) [
      | none ↦ undefined
      | some names ↦ traced (lines prefix (drop skip names))
    ]
unfolding backtrace_to_string backtrace then_write first_index
backtrace_to_string-lines calls symbols size skip prefix =
    elim (Option-cases (symbols (take size calls))) [
      | inl e ↦ rw (e, backtrace_to_string, backtrace) refl
      | inr (names, e) ↦
          rw (e, backtrace_to_string, backtrace, push_from-drop skip names [])
            (ap traced (write_each-lines prefix (drop skip names) []))
    ]
