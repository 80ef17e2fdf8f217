-- ===== src/Tests/Util.antt =====
-- Tests of the call stack's text.
use simple_http_server.Base.{ℕ, ◌≡◌, List, [], ◌∷◌, Option, none, some, map, take, drop}
use simple_http_server.Base.Bytes.{Bytes, codes}
use simple_http_server.Base.Int.{pos}
use simple_http_server.Util.{traced, undefined, backtrace_to_string}
use simple_http_server.Util.Trace.{lines, backtrace_to_string-lines}

abbrev no_names : List ℕ → Option (List Bytes)
no_names calls = none

abbrev letters : List ℕ → Option (List Bytes)
letters calls = some (map (λ c. c ∷ []) calls)

abbrev calls : List ℕ
calls = codes "abcde"

backtrace_to_string-lines_example :
    backtrace_to_string calls letters 4 (pos 2) (codes "- ") ≡ traced (codes "- c\n- d\n")
unfolding lines take drop
backtrace_to_string-lines_example = backtrace_to_string-lines calls letters 4 2 (codes "- ")

no_names_known : backtrace_to_string calls no_names 4 (pos 2) [] ≡ undefined
no_names_known = backtrace_to_string-lines calls no_names 4 2 []
