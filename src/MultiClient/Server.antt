-- ===== src/MultiClient/Server.antt =====
-- cpp/socket_programming/multi_client_server/server.cpp: the handlers, and the loop that serves one
-- client, as they run from their call to their return with no other thread between: the calls of send
-- and close stand in the order in which they are made, and std::cout is left out. handleDirectMessage and
-- handleLoginClient take no mutex: MultiClient/Race has them in parts, with other threads between.
use build_your_own_stuff.Prelude.{
  ℕ, suc, Option, none, some, List, [], ◌∷◌, ◌++◌, length, take, drop, replicate, leb, Text, codes,
  find, ltb, ◌==◌, if◌then◌else◌,
}
use build_your_own_stuff.MultiClient.NameMap.{NameMap, lookup, assign, erase_value}
use build_your_own_stuff.MultiClient.Wire.{Action, send, close, htonl}

pub data EventType : Type 0 where
  login direct broadcast logout online_users invalid : EventType

abbrev pub colon : ℕ
colon = b':'

abbrev pub buffer_size : ℕ
buffer_size = 1024

abbrev pub event_map : NameMap EventType
event_map =
    (codes "broadcast", broadcast)
    ∷ (codes "direct", direct)
    ∷ (codes "login", login)
    ∷ (codes "logout", logout)
    ∷ (codes "online-users", online_users)
    ∷ []

-- The globals of the server, and the calls on sockets so far, the oldest first.
pub record Server : Type 0 where
  pub clients : List ℕ
  pub client_mapp : NameMap ℕ
  pub actions : List Action

unfoldable pub send_message_to_client : ℕ → Text → Server → Server
send_message_to_client fd message s = record s {
  actions = s.actions ++ send fd (htonl (length message)) ∷ send fd message ∷ [];
}

-- The loop of broadcastMessage over `clients`.
unfoldable pub broadcast_loop : Text → ℕ → List ℕ → Server → Server
unfolding send_message_to_client
broadcast_loop message sender [] s = s
broadcast_loop message sender (client ∷ rest) s = broadcast_loop message sender rest (
    if client == sender
    then s
    else send_message_to_client client (codes "Broadcast: " ++ message) s)

unfoldable pub broadcast_message : Text → ℕ → Server → Server
unfolding broadcast_loop
broadcast_message message sender s =
    send_message_to_client sender (codes "Broadcast sent successfully.")
      (broadcast_loop message sender s.clients s)

-- With no other thread between its two parts, which are in MultiClient/Race.
unfoldable pub handle_login_client : Text → ℕ → Server → Server
unfolding send_message_to_client
handle_login_client username sender s =
    send_message_to_client sender (codes "Login successful.")
      (record s { client_mapp = assign username sender s.client_mapp })

-- std::remove and erase
unfoldable pub remove_client : ℕ → List ℕ → List ℕ
remove_client fd [] = []
remove_client fd (c ∷ cs) = let rest = remove_client fd cs in if c == fd then rest else c ∷ rest

unfoldable pub handle_logout_client : ℕ → Server → Server
unfolding send_message_to_client
handle_logout_client fd s =
    let s' : Server = record s {
      client_mapp = erase_value fd s.client_mapp;
      clients = remove_client fd s.clients;
    } in
    let s'' = send_message_to_client fd (codes "Logout successful.") s' in
    record s'' { actions = s''.actions ++ close fd ∷ [] }

-- The names that handleOnlineUsers appends, each with a newline.
unfoldable pub name_lines : NameMap ℕ → Text
name_lines [] = []
name_lines ((name, fd) ∷ rest) = name ++ 10 ∷ name_lines rest

unfoldable pub handle_online_users : ℕ → Server → Server
unfolding send_message_to_client name_lines
handle_online_users sender s =
    send_message_to_client sender (codes "Online Users:" ++ 10 ∷ name_lines s.client_mapp) s

-- The case of handleDirectMessage with a delimiter.
unfoldable pub direct_to : Option ℕ → Text → ℕ → Server → Server
unfolding send_message_to_client
direct_to none message sender s =
    send_message_to_client sender (codes "Error: Receiver not found or offline.") s
direct_to (some receiver) message sender s =
    send_message_to_client sender (codes "Direct message sent successfully.")
      (send_message_to_client receiver (codes "Direct message from sender: " ++ message) s)

-- With no other thread between its parts, which are in MultiClient/Race.
unfoldable pub handle_direct_message : Text → ℕ → Server → Server
unfolding direct_to
handle_direct_message event_data sender s = elim (find colon event_data) [
  | none ↦ send_message_to_client sender (codes "Error: Invalid message format.") s
  | some pos ↦
      direct_to (lookup (take pos event_data) s.client_mapp) (drop (suc pos) event_data) sender s
]

-- `event` and `event_data` of a message.
unfoldable pub split_event : Text → Text × Text
split_event message = elim (find colon message) [
  | none ↦ (message, [])
  | some pos ↦ (take pos message, drop (suc pos) message)
]

unfoldable pub event_type : Text → EventType
event_type event = elim (lookup event event_map) [ none ↦ invalid | some t ↦ t ]

-- What one round of the loop in handleClient ends in: the loop goes on, the function returns, or
-- `buffer` is written past its end.
pub data Outcome : Type 0 where
  continues : Server → Outcome
  returns : Server → Outcome
  overflows : Outcome

unfoldable pub dispatch : EventType → Text → ℕ → Server → Outcome
dispatch login event_data fd s = continues (handle_login_client event_data fd s)
dispatch direct event_data fd s = continues (handle_direct_message event_data fd s)
dispatch broadcast event_data fd s = continues (broadcast_message event_data fd s)
dispatch logout event_data fd s = returns (handle_logout_client fd s)
dispatch online_users event_data fd s = continues (handle_online_users fd s)
dispatch invalid event_data fd s =
    continues (send_message_to_client fd (codes "Error: Invalid event type.") s)

-- std::string message(buffer): the bytes before the first NUL
unfoldable pub c_string : Text → Text
c_string [] = []
c_string (c ∷ cs) = let rest = c_string cs in if c == 0 then [] else c ∷ rest

-- What the two calls of recv in one round bring: the four bytes of msgLength after the first, and
-- the bytes that the second returns. `none` is a result of 0 or less.
pub record Round : Type 0 where
  pub header : Option Text
  pub body : Option Text

unfoldable pub handle_message : Text → ℕ → Server → Outcome
unfolding dispatch split_event event_type
handle_message message fd s =
    let (event, event_data) = split_event message in dispatch (event_type event) event_data fd s

-- The array `buffer` of handleClient. What it held before does not matter, as a NUL is put behind what is
-- received.
abbrev pub new_buffer : Text
new_buffer = replicate buffer_size 0

-- What the second recv writes into the array; `none` is a write past its end.
unfoldable pub fill : Text → Text → Option Text
fill bytes buffer =
    if leb (length bytes) (length buffer) then some (bytes ++ drop (length bytes) buffer) else none

-- buffer[i] = '\0'
unfoldable pub put_nul : ℕ → Text → Option Text
put_nul i buffer =
    if ltb i (length buffer) then some (take i buffer ++ 0 ∷ drop (suc i) buffer) else none

abbrev pub then_nul : ℕ → Option Text → Option Text
then_nul i none = none
then_nul i (some buffer) = put_nul i buffer

abbrev pub received : Option Text → ℕ → Server → Outcome
received none fd s = overflows
received (some buffer) fd s = handle_message (c_string buffer) fd s

unfoldable pub receive_body : Option Text → ℕ → Server → Outcome
receive_body none fd s = returns (handle_logout_client fd s)
receive_body (some bytes) fd s = received (then_nul (length bytes) (fill bytes new_buffer)) fd s

unfoldable pub handle_round : Round → ℕ → Server → Outcome
unfolding receive_body
handle_round r fd s = elim r.header [
  | none ↦ returns (handle_logout_client fd s)
  | some _ ↦ receive_body r.body fd s
]

-- handleClient, for as many rounds as have come.
unfoldable pub handle_client : List Round → ℕ → Server → Outcome
unfolding handle_round
handle_client [] fd s = continues s
handle_client (r ∷ rounds) fd s = elim (handle_round r fd s) [
  | continues s' ↦ handle_client rounds fd s'
  | returns s' ↦ returns s'
  | overflows ↦ overflows
]

-- main: a new connection
unfoldable pub accept_client : ℕ → Server → Server
accept_client fd s = record s { clients = s.clients ++ fd ∷ [] }
