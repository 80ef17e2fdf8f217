-- ===== src/Http/Answer.antt =====
-- What a client gets, and what the server prints about it.
use simple_http_server.Base.{
  ℕ, ◌≢◌, ◌≤◌, ◌≡◌, refl, ◌⊎◌, true, [], ◌∷◌, ◌++◌, length, inl, inr, Bool-cases,
}
use simple_http_server.Base.Bytes.{Bytes, codes}
use simple_http_server.Http.{
  Code, success, eof, Peer, Exchange, response, is_success, is_fatal, close, try_request, caught,
  handle_request,
}

-- The message for an exception with a code.
abbrev pub error_line : (Code → Bytes) → Code → Bytes
error_line what code = codes "Error handling request: " ++ (what code ++ b'\n' ∷ [])

-- `part` is the beginning of `whole`, of at most `n` bytes, and all of it if it has fewer.
pub record IsCut (n : ℕ) (whole part : Bytes) : Type 0 where
  pub rest : Bytes
  pub split : part ++ rest ≡ whole
  pub within : length part ≤ n
  pub full : (rest ≡ []) ⊎ (length part ≡ n)

-- The read has failed: nothing is printed to the console and nothing sent, the error is reported,
-- and the socket is left as it is.
pub record IsRefused (what : Code → Bytes) (peer : Peer) (x r : Exchange) : Type 0 where
  pub silent : r.console ≡ x.console
  pub unsent : r.sent ≡ x.sent
  pub left : r.closed ≡ x.closed
  pub reported : r.errors ≡ x.errors ++ error_line what peer.read_code

-- The read has given `shown`, of the bytes `given` by the system: these are printed, and as much of
-- the answer as the client takes is sent; then the socket is closed, or the error of `close` is
-- reported.
pub record IsAnswered (what : Code → Bytes) (peer : Peer) (x r : Exchange) : Type 0 where
  pub given : Bytes
  pub shown : Bytes
  pub part : Bytes
  pub given_cut : IsCut peer.chunk peer.pending given
  pub shown_cut : IsCut 1024 given shown
  pub printed : r.console ≡ x.console ++ (codes "Request received: \n" ++ shown ++ b'\n' ∷ [])
  pub part_cut : IsCut peer.writable response part
  pub sent : r.sent ≡ x.sent ++ part
  pub closed_or_reported :
      ((peer.close_code ≡ success) × (r.closed ≡ true) × (r.errors ≡ x.errors))
      ⊎ ((peer.close_code ≢ success)
          × (r.closed ≡ x.closed)
          × (r.errors ≡ x.errors ++ error_line what peer.close_code))

abbrev pub IsRead : Code → Type 0
IsRead code = (code ≡ success) ⊎ (code ≡ eof)

-- What becomes of a request.
pub data IsServed (what : Code → Bytes) (peer : Peer) (x r : Exchange) : Type 0 where
  refused : ¬ IsRead peer.read_code → IsRefused what peer x r → IsServed what peer x r
  answered : IsRead peer.read_code → IsAnswered what peer x r → IsServed what peer x r

-- The answer does not depend on the request: with other bytes waiting, and a read that gives more
-- or less of them, the same is sent, the same errors are printed, and the socket is closed or not
-- as before.
pub handle_request-same_answer :
    (what : Code → Bytes) (peer : Peer) (x : Exchange) (pending : Bytes) (chunk : ℕ)
    → let r = handle_request what peer x in
      let r' = handle_request what (record peer { pending = pending; chunk = chunk }) x in
      (r'.sent ≡ r.sent) × (r'.errors ≡ r.errors) × (r'.closed ≡ r.closed)
unfolding handle_request try_request close caught
handle_request-same_answer what peer x pending chunk = elim (Bool-cases (is_fatal peer.read_code)) [
  | inl fatal ↦ rw (fatal) (refl, refl, refl)
  | inr fine ↦ elim (Bool-cases (is_success peer.close_code)) [
    | inl good ↦ rw (fine, good) (refl, refl, refl)
    | inr bad ↦ rw (fine, bad) (refl, refl, refl)
  ]
]
