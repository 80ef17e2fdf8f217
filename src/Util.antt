-- ===== src/Util.antt =====
-- src/util/util.cpp and src/macro.h: the call stack as text, and what a failed assertion logs.
pub mod Trace
use simple_http_server.Base.{
  ℕ, zero, suc, ◌-◌, ◌^◌, Bool, true, false, not, List, [], ◌∷◌, ◌++◌, Option, none, some, take,
  if◌then◌else◌,
}
use simple_http_server.Base.Bytes.{Bytes, codes}
use simple_http_server.Base.Int.{ℤ, pos, negsuc}

-- What a function comes to whose behaviour C++ may leave undefined.
pub data Traced (A : Type 0) : Type 0 where
  traced : A → Traced A
  undefined : Traced A

-- `size_t i = skip`, from an `int`.
unfoldable pub first_index : ℤ → ℕ
first_index (pos n) = n
first_index (negsuc n) = 2 ^ 64 - suc n

-- The loop from an index on, over the names of the frames.
unfoldable pub push_from : ℕ → List Bytes → List Bytes → List Bytes
push_from k [] bt = bt
push_from zero (name ∷ names) bt = push_from zero names (bt ++ name ∷ [])
push_from (suc k) (name ∷ names) bt = push_from k names bt

-- `Backtrace`, for the addresses of the calls, the last one first, and what `backtrace_symbols`
-- makes of some; without names the buffer is freed twice.
unfoldable pub backtrace :
    List ℕ → (List ℕ → Option (List Bytes)) → List Bytes → ℕ → ℤ → Traced (List Bytes)
unfolding first_index push_from take
backtrace calls symbols bt size skip = elim (symbols (take size calls)) [
  | none ↦ undefined
  | some names ↦ traced (push_from (first_index skip) names bt)
]

-- The loop that writes one line for each name.
unfoldable pub write_each : Bytes → List Bytes → Bytes → Bytes
write_each prefix [] ss = ss
write_each prefix (name ∷ names) ss =
    write_each prefix names (ss ++ (prefix ++ (name ++ b'\n' ∷ [])))

unfoldable pub then_write : Bytes → Traced (List Bytes) → Traced Bytes
unfolding write_each
then_write prefix undefined = undefined
then_write prefix (traced bt) = traced (write_each prefix bt [])

-- `BacktraceToString`
unfoldable pub backtrace_to_string :
    List ℕ → (List ℕ → Option (List Bytes)) → ℕ → ℤ → Bytes → Traced Bytes
unfolding backtrace then_write
backtrace_to_string calls symbols size skip prefix =
    then_write prefix (backtrace calls symbols [] size skip)

-- `GetFiberId` of src/util/util.cpp
abbrev pub get_fiber_id : ℕ
get_fiber_id = 0

-- The macros that the build may define.
pub data Platform : Type 0 where
  windows : Platform
  linux : Platform
  unknown : Platform

unfoldable pub choose_by_os : Platform → Bytes → Bytes → Bytes
choose_by_os windows for_windows for_linux = for_windows
choose_by_os linux for_windows for_linux = for_linux
choose_by_os unknown for_windows for_linux = []

-- The text that `SHS_ASSERT` logs to the root logger when the condition, whose text is given, does
-- not hold; none if it holds.
unfoldable pub assert_text : Bool → Bytes → Bytes → Option Bytes
assert_text true condition trace = none
assert_text false condition trace =
    some (codes "ASSERTION: " ++ (condition ++ (codes "\nbacktrace:\n" ++ trace)))

-- The same for `SHS_ASSERT2`, which adds a text.
unfoldable pub assert2_text : Bool → Bytes → Bytes → Bytes → Option Bytes
assert2_text true condition added trace = none
assert2_text false condition added trace = some (
    codes "ASSERTION: "
    ++ (condition ++ (codes "\n" ++ (added ++ (codes "\nbacktrace:\n" ++ trace)))))
