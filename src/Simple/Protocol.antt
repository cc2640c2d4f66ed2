-- ===== src/Simple/Protocol.antt =====
-- cpp/socket_programming/simple_client_server/server.cpp and client.cpp: receiveMessage, sendMessage
-- and the two loops. The connection is the bytes that have not been received, and `recv` an argument:
-- what it gives for a length, and what it leaves. Setting up the connection is left out.
use build_your_own_stuff.Prelude.{
  ℕ, zero, suc, ◌^◌, Option, none, some, List, [], ◌∷◌, ◌++◌, length, Text, codes, text_eq, ltb,
  ◌==◌, if◌then◌else◌,
}
use build_your_own_stuff.MultiClient.Wire.{htonl, ntohl}

-- `none` is a result of -1, or of 0 where more than no bytes were asked for.
abbrev pub Recv : Type 0
Recv = ℕ → Text → Option (Text × Text)

-- std::string message(buffer): the bytes before the first NUL
unfoldable pub c_string : Text → Text
c_string [] = []
c_string (c ∷ cs) = let rest = c_string cs in if c == 0 then [] else c ∷ rest

module _ (recv : Recv) where
  -- The second recv, which fills a buffer of length + 1 bytes. A negative length makes `new` throw.
  unfoldable pub receive_bytes : ℕ → Text → Option (Text × Text)
  unfolding c_string
  receive_bytes n stream =
      if ltb n (2 ^ 31)
      then (elim (recv n stream) [ none ↦ none | some (bytes, rest) ↦ some (c_string bytes, rest) ])
      else none

  -- receiveMessage. `none` is what the code does not define, or an exception: where the first recv
  -- fails, `length` is not initialised, and where the second does, the NUL is put before the buffer.
  unfoldable pub receive_message : Text → Option (Text × Text)
  unfolding receive_bytes
  receive_message stream = elim (recv 4 stream) [
    | none ↦ none
    | some (header, rest) ↦ receive_bytes (ntohl header) rest
  ]

-- sendMessage
unfoldable pub send_message : Text → Text
send_message message = htonl (length message) ++ message

-- What a loop shows on std::cout, what it sends, and what it leaves unreceived.
pub record Done : Type 0 where
  pub shown : List Text
  pub sent : Text
  pub unread : Text

abbrev pub before : List Text → Text → Option Done → Option Done
before shown sent none = none
before shown sent (some d) = some (record d { shown = shown ++ d.shown; sent = sent ++ d.sent })

module _ (recv : Recv) where
  -- The loop of the server, for as many turns at most: `none` is also that there were too few.
  unfoldable pub server_loop : ℕ → Text → Option Done
  unfolding receive_message send_message
  server_loop zero stream = none
  server_loop (suc turns) stream = elim (receive_message recv stream) [
    | none ↦ none
    | some (msg, rest) ↦
        let again = server_loop turns rest in
        if text_eq msg (codes "exit")
        then some (record { shown = []; sent = []; unread = rest })
        else before (msg ∷ []) (send_message (codes "Received: " ++ msg)) again
  ]

  -- The loop of the client, with the lines that std::getline gives: `none` is also that they end.
  unfoldable pub client_loop : List Text → Text → Option Done
  unfolding receive_message send_message
  client_loop [] stream = none
  client_loop (msg ∷ lines) stream =
      if text_eq msg (codes "exit")
      then some (record { shown = []; sent = send_message msg; unread = stream })
      else (elim (receive_message recv stream) [
        | none ↦ none
        | some (response, rest) ↦ before (response ∷ []) (send_message msg) (client_loop lines rest)
      ])
