-- ===== src/Http.antt =====
-- src/server.cpp and src/main.cpp: the HTTP server, over asio. An event loop runs the handlers of
-- `async_accept` one after the other; each connection is answered in a thread of its own.
pub mod Answer
pub mod Accepts
use simple_http_server.Base.{
  take, ℕ, zero, suc, ◌-◌, Bool, true, false, not, ◌&&◌, List, [], ◌∷◌, ◌++◌, Option, none, some,
  if◌then◌else◌, ◌==◌,
}
use simple_http_server.Base.Bytes.{Bytes, codes}

-- An error code of asio.
pub data Code : Type 0 where
  success : Code
  eof : Code
  other : ℕ → Code

-- What the calls for one connection come to: the bytes that are waiting, how many of them one read
-- gives at most, and the code of the read; how many bytes of the answer are written before an
-- error; and the code of `close`, which throws it.
pub record Peer : Type 0 where
  pub pending : Bytes
  pub chunk : ℕ
  pub read_code : Code
  pub writable : ℕ
  pub close_code : Code

-- Standard output and standard error, the bytes sent, and whether the socket is closed.
pub record Exchange : Type 0 where
  pub console : Bytes
  pub errors : Bytes
  pub sent : Bytes
  pub closed : Bool

abbrev pub crlf : Bytes
crlf = b'\r' ∷ b'\n' ∷ []

abbrev pub response : Bytes
response =
    codes "HTTP/1.1 200 OK"
    ++ (crlf ++ (codes "Content-Type: text/plain" ++ (crlf ++ (crlf ++ codes "Hello, World!"))))

-- `socket.read_some(asio::buffer(data), error)`, where `data` has 1024 bytes.
unfoldable pub read_some : Peer → Bytes
unfolding take
read_some peer = take 1024 (take peer.chunk peer.pending)

abbrev pub print : Exchange → Bytes → Exchange
print x line = record x { console = x.console ++ (line ++ b'\n' ∷ []) }

-- What the body of `try` comes to: its end, or an exception with a code.
pub data Tried : Type 0 where
  ended : Exchange → Tried
  threw : Exchange → Code → Tried

unfoldable pub is_success : Code → Bool
is_success success = true
is_success eof = false
is_success (other n) = false

-- `error && error != asio::error::eof`
unfoldable pub is_fatal : Code → Bool
is_fatal success = false
is_fatal eof = false
is_fatal (other n) = true

-- `socket.close()`
unfoldable pub close : Peer → Exchange → Tried
unfolding is_success
close peer x =
    if is_success peer.close_code
    then ended (record x { closed = true })
    else threw x peer.close_code

-- The body of `try`; the code that `asio::write` leaves is not looked at.
unfoldable pub try_request : Peer → Exchange → Tried
unfolding is_fatal read_some close take
try_request peer x =
    let printed = print x (codes "Request received: \n" ++ read_some peer) in
    let answered = record printed { sent = printed.sent ++ take peer.writable response } in
    if is_fatal peer.read_code then threw x peer.read_code else close peer answered

-- `catch`, with the text of the exception.
unfoldable pub caught : (Code → Bytes) → Tried → Exchange
caught what (ended x) = x
caught what (threw x code) = record x {
  errors = x.errors ++ (codes "Error handling request: " ++ (what code ++ b'\n' ∷ []));
}

-- `HttpServer::handle_request`
unfoldable pub handle_request : (Code → Bytes) → Peer → Exchange → Exchange
unfolding try_request caught
handle_request what peer x = caught what (try_request peer x)

-- The server: whether its acceptor is open, how many calls of `async_accept` have not come back,
-- the connections that threads have been started for, the last one first, and what is printed.
pub record HttpServer : Type 0 where
  pub is_open : Bool
  pub accepts : ℕ
  pub served : List ℕ
  pub console : Bytes

-- How an `async_accept` comes back: with an error, or with a connection, for which a thread can be
-- started or not.
pub data Completion : Type 0 where
  failed : Completion
  accepted : ℕ → Bool → Completion

-- A handler returns, or the exception of a thread that cannot be started leaves it.
pub data Handled : Type 0 where
  returned : HttpServer → Handled
  thrown : HttpServer → Handled

-- `accept_connection`, which is all that `start` does.
unfoldable pub accept_connection : HttpServer → HttpServer
accept_connection s = record s { accepts = suc s.accepts }

unfoldable pub start : HttpServer → HttpServer
unfolding accept_connection
start s = accept_connection s

unfoldable pub stop : HttpServer → HttpServer
stop s = record s { is_open = false }

abbrev pub new_server : HttpServer
new_server = record { is_open = true; accepts = 0; served = []; console = [] }

abbrev pub announce : HttpServer → HttpServer
announce s = record s { console = s.console ++ (codes "New connection accepted!" ++ b'\n' ∷ []) }

-- The handler that `accept_connection` gives to `async_accept`.
unfoldable pub on_accept : HttpServer → Completion → Handled
unfolding accept_connection
on_accept s failed = returned (accept_connection s)
on_accept s (accepted socket false) = thrown (announce s)
on_accept s (accepted socket true) =
    returned (accept_connection (record (announce s) { served = socket ∷ s.served }))

-- What happens while the event loop runs: an `async_accept` comes back, or the server is stopped.
pub data Event : Type 0 where
  completed : Completion → Event
  stopped : Event

-- `io_context.run()` comes to its end when no call is left, or by an exception; or the events do.
pub data Run : Type 0 where
  waiting : HttpServer → Run
  over : HttpServer → Run
  escaped : HttpServer → Run

abbrev pub then_run : Handled → (HttpServer → Run) → Run
then_run (returned s) k = k s
then_run (thrown s) k = escaped s

unfoldable pub run : HttpServer → List Event → Run
unfolding on_accept stop
run s [] = if s.accepts == 0 then over s else waiting s
run s (stopped ∷ events) = run (stop s) events
run s (completed c ∷ events) =
    if s.accepts == 0
    then over s
    else then_run (on_accept (record s { accepts = s.accepts - 1 }) c) (λ s'. run s' events)

-- The server of `main` before `start`.
abbrev pub greeted : HttpServer
greeted = record new_server { console = codes "HTTP Server started on port 8080." ++ b'\n' ∷ [] }

-- `main`: what goes to standard error, and the run of the server if its acceptor could be opened.
unfoldable pub main : Bool → Bytes → List Event → Bytes × Option Run
unfolding start run
main opened what events =
    let report : Bytes = codes "Exception: " ++ (what ++ b'\n' ∷ []) in
    if not opened then (report, none) else elim (run (start greeted) events) [
      | escaped s' ↦ (report, some (escaped s'))
      | waiting s' ↦ ([], some (waiting s'))
      | over s' ↦ ([], some (over s'))
    ]
