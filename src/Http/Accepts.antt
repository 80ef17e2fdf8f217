-- ===== src/Http/Accepts.antt =====
-- The server always waits for one more connection.
use simple_http_server.Base.{
  ℕ, ◌≡◌, refl, Bool, true, false, List, [], ◌∷◌, ◌++◌, some, if◌then◌else◌, arith,
}
use simple_http_server.Base.Bytes.{Bytes, codes}
use simple_http_server.Http.{
  HttpServer, failed, accepted, Event, completed, stopped, Run, waiting, escaped, announce, greeted,
  main, on_accept, accept_connection, start, stop, run,
}

-- A thread can be started for every connection.
abbrev pub all_started : List Event → Bool
all_started [] = true
all_started (stopped ∷ events) = all_started events
all_started (completed failed ∷ events) = all_started events
all_started (completed (accepted socket started) ∷ events) =
    if started then all_started events else false

-- The connections that come in, behind others, the last one first.
unfoldable pub connections : List ℕ → List Event → List ℕ
connections before [] = before
connections before (stopped ∷ events) = connections before events
connections before (completed failed ∷ events) = connections before events
connections before (completed (accepted socket started) ∷ events) =
    connections (socket ∷ before) events

-- The server waits for one connection and has served others.
pub record IsWaiting (served : List ℕ) (r : Run) : Type 0 where
  pub server : HttpServer
  pub still : r ≡ waiting server
  pub one_accept : server.accepts ≡ 1
  pub all_served : server.served ≡ served

run-IsWaiting-from :
    (events : List Event) (s : HttpServer)
    → s.accepts ≡ 1
    → all_started events ≡ true
    → IsWaiting (connections s.served events) (run s events)
unfolding run on_accept accept_connection stop connections
run-IsWaiting-from [] s one h = record {
  server = s;
  still = rw (one) refl;
  one_accept = one;
  all_served = refl;
}
run-IsWaiting-from (stopped ∷ events) s one h = run-IsWaiting-from events (stop s) one h
run-IsWaiting-from (completed failed ∷ events) s one h =
    rw (one) (run-IsWaiting-from events _ refl h)
run-IsWaiting-from (completed (accepted socket true) ∷ events) s one h =
    rw (one) (run-IsWaiting-from events _ refl h)
run-IsWaiting-from (completed (accepted socket false) ∷ events) s one h = absurd (ground (arith, h))

-- The first connection that no thread can be started for ends the loop by an exception.
run-escapes-from :
    (before after : List Event) (socket : ℕ) (s : HttpServer)
    → s.accepts ≡ 1
    → all_started before ≡ true
    → (s' : HttpServer) × (run s (before ++ completed (accepted socket false) ∷ after) ≡ escaped s')
      × (s'.accepts ≡ 0)
      × (s'.served ≡ connections s.served before)
unfolding run on_accept accept_connection stop connections
run-escapes-from [] after socket s one h =
    (announce (record s { accepts = 0 }), rw (one) refl, refl, refl)
run-escapes-from (stopped ∷ before) after socket s one h =
    run-escapes-from before after socket (stop s) one h
run-escapes-from (completed failed ∷ before) after socket s one h =
    rw (one) (run-escapes-from before after socket _ refl h)
run-escapes-from (completed (accepted other true) ∷ before) after socket s one h =
    rw (one) (run-escapes-from before after socket _ refl h)
run-escapes-from (completed (accepted other false) ∷ before) after socket s one h =
    absurd (ground (arith, h))

-- While a thread can be started for every connection, `main` never ends, be the server stopped or
-- not: after any events the event loop still waits for exactly one `async_accept`, nothing is on
-- standard error, and each connection has had one thread, in order.
pub main-waits :
    (what : Bytes) (events : List Event)
    → all_started events ≡ true
    → (s : HttpServer) × (main true what events ≡ ([], some (waiting s)))
      × (s.accepts ≡ 1)
      × (s.served ≡ connections [] events)
unfolding main start accept_connection
main-waits what events h =
    let w = run-IsWaiting-from events (start greeted) refl h in
    (w.server, rw (w.still) refl, w.one_accept, w.all_served)

-- When the first connection comes in that no thread can be started for, `main` ends with the
-- message of the exception, whatever events would follow; the connections before it have had their
-- threads, and no `async_accept` is left.
pub main-escapes :
    (what : Bytes) (before after : List Event) (socket : ℕ)
    → all_started before ≡ true
    → (s : HttpServer) × (main true what (before ++ completed (accepted socket false) ∷ after)
        ≡ (codes "Exception: " ++ (what ++ b'\n' ∷ []), some (escaped s)))
      × (s.accepts ≡ 0)
      × (s.served ≡ connections [] before)
unfolding main start accept_connection
main-escapes what before after socket h =
    let (s, e, none_left, served) = run-escapes-from before after socket (start greeted) refl h in
    (s, rw (e) refl, none_left, served)
