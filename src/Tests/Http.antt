-- ===== src/Tests/Http.antt =====
-- Tests of the HTTP server.
use simple_http_server.Base.{take, ◌≡◌, refl, true, false, List, [], ◌∷◌, some}
use simple_http_server.Base.Bytes.{Bytes, codes}
use simple_http_server.Http.{
  Code, eof, other, Peer, Exchange, read_some, HttpServer, failed, accepted, Event, completed,
  stopped, waiting, main,
}
use simple_http_server.Http.Accepts.{connections, main-waits}

abbrev what : Code → Bytes
what code = codes "End of file"

-- A client that is gone once it has sent its request.
abbrev client : Peer
client = record {
  pending = codes "GET / HTTP/1.1";
  chunk = 5;
  read_code = eof;
  writable = 15;
  close_code = other 9;
}

abbrev nothing_yet : Exchange
nothing_yet = record { console = []; errors = []; sent = []; closed = false }

read_of_client : read_some client ≡ codes "GET /"
unfolding read_some take
read_of_client = refl

abbrev events : List Event
events = completed (accepted 4 true) ∷ completed failed ∷ stopped ∷ completed (accepted 5 true) ∷ []

main-waits_example :
    (s : HttpServer) × (main true [] events ≡ ([], some (waiting s)))
    × (s.accepts ≡ 1)
    × (s.served ≡ 5 ∷ 4 ∷ [])
unfolding connections
main-waits_example = main-waits [] events refl
