-- ===== src/MultiClient/Overflow.antt =====
-- The fixed buffer of handleClient in cpp/socket_programming/multi_client_server/server.cpp, and
-- the length that a client claims.
use build_your_own_stuff.Prelude.{
  ℕ, ◌^◌, ◌≤◌, ◌<◌, ◌≡◌, ◌≢◌, ◌↔◌, ap, Option, none, some, arith, length, replicate,
  length-replicate, Text,
}
use build_your_own_stuff.MultiClient.Wire.{htonl, ntohl, ntohl-htonl, as_size, as_size-id}
use build_your_own_stuff.MultiClient.Buffer.{receive_body-if}
use build_your_own_stuff.MultiClient.Server.{
  Server, EventType, login, direct, broadcast, logout, online_users, invalid, buffer_size, dispatch,
  split_event, event_type, handle_message, c_string, Round, overflows, receive_body, handle_round,
}

-- recv returns no more bytes than it was asked for.
abbrev pub WithinClaim : Option Text → Option Text → Type 0
WithinClaim none b = Unit {0}
WithinClaim (some h) none = Unit {0}
WithinClaim (some h) (some b) = length b ≤ as_size (ntohl h)

abbrev pub IsPossible : Round → Type 0
IsPossible r = WithinClaim r.header r.body

dispatch-ne-overflows :
    (t : EventType) (rest : Text) (fd : ℕ) (s : Server) → dispatch t rest fd s ≢ overflows
unfolding dispatch
dispatch-ne-overflows login rest fd s e = cc
dispatch-ne-overflows direct rest fd s e = cc
dispatch-ne-overflows broadcast rest fd s e = cc
dispatch-ne-overflows logout rest fd s e = cc
dispatch-ne-overflows online_users rest fd s e = cc
dispatch-ne-overflows invalid rest fd s e = cc

handle_message-ne-overflows :
    (message : Text) (fd : ℕ) (s : Server) → handle_message message fd s ≢ overflows
unfolding handle_message
handle_message-ne-overflows message fd s =
    dispatch-ne-overflows (event_type (split_event message).0) (split_event message).1 fd s

-- A body of 1024 bytes or more was received.
abbrev pub TooLong : Option Text → Option Text → Type 0
TooLong none b = ⊥
TooLong (some h) none = ⊥
TooLong (some h) (some b) = 1024 ≤ length b

round_overflows :
    (h b : Option Text) (fd : ℕ) (s : Server)
    → (handle_round (record { header = h; body = b }) fd s ≡ overflows) ↔ TooLong h b
unfolding handle_round receive_body
round_overflows none b fd s = ((λ e. cc), λ x. absurd x)
round_overflows (some h) none fd s = ((λ e. cc), λ x. absurd x)
round_overflows (some h) (some b) fd s =
    let same = receive_body-if b fd s in
    (
      (λ e. ground (arith, same, handle_message-ne-overflows (c_string b) fd s)),
      λ x. ground (arith, same),
    )

-- A round writes past the end of the buffer exactly when recv brings 1024 bytes or more: with 1024
-- it is the NUL behind them that does not fit.
pub handle_round-overflows :
    (r : Round) (fd : ℕ) (s : Server) → (handle_round r fd s ≡ overflows) ↔ TooLong r.header r.body
handle_round-overflows r fd s = round_overflows r.header r.body fd s

short_claim :
    (h b : Option Text) (c : Text)
    → h ≡ some c
    → ntohl c < buffer_size
    → WithinClaim h b
    → ¬ TooLong h b
short_claim none b c e l w x = x
short_claim (some h) none c e l w x = x
short_claim (some h) (some b) c e l w x =
    let same : ntohl h ≡ ntohl c = ground arith in ground (arith, as_size-id (ntohl h))

-- A round whose client claims less than 1024 bytes does not write past the buffer, as recv
-- brings no more than it is asked for.
pub short_claim_safe :
    (r : Round) (c : Text) (fd : ℕ) (s : Server)
    → r.header ≡ some c
    → ntohl c < buffer_size
    → IsPossible r
    → handle_round r fd s ≢ overflows
short_claim_safe r c fd s e l w o =
    short_claim r.header r.body c e l w ((handle_round-overflows r fd s).0 o)

-- Nothing checks the claim: for each length from 1024 up and below 2 GiB, a client that claims
-- it and sends as much makes the server write past its buffer.
pub long_claim_overflows :
    (n fd : ℕ) (s : Server)
    → buffer_size ≤ n
    → n < 2 ^ 31
    → (body : Text) × IsPossible (record { header = some (htonl n); body = some body })
      × (handle_round (record { header = some (htonl n); body = some body }) fd s ≡ overflows)
long_claim_overflows n fd s big fits = (
  replicate n b'A',
  omega (
    arith,
    length-replicate {A = ℕ} n b'A',
    ntohl-htonl n,
    as_size-id n,
    ap as_size (ntohl-htonl n (omega arith)),
  ),
  (handle_round-overflows (record { header = some (htonl n); body = some (replicate n b'A') }) fd
        s).1
      (omega (arith, length-replicate {A = ℕ} n b'A')),
)
