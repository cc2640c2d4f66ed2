-- ===== src/Chatroom/Room.antt =====
-- chatroom-app/chatRoom.cpp with chatRoom.hpp: the room, its sessions, and the completions of their
-- reads as events. What boost::asio does is left out: an event is a completed read or a failed one,
-- and a write is recorded when it is started, not what the socket gets.
use build_your_own_stuff.Prelude.{
  ℕ, Bool, Option, none, some, List, [], ◌∷◌, ◌++◌, take, Text, ltb, ◌==◌, if◌then◌else◌,
}
use build_your_own_stuff.Chatroom.Message.{Message, construct, decode_header, get_body}

-- A participant is the address of its session. `participants` is a std::set of them, so it is kept
-- in ascending order. `started` holds the calls of boost::asio::async_write, the oldest first,
-- each with what its buffer holds when the write is started.
pub record Chat : Type 0 where
  pub room_queue : List Message
  pub participants : List ℕ
  pub session_queue : ℕ → List Message
  pub started : List (ℕ × Text)

abbrev pub update : ℕ → List Message → (ℕ → List Message) → ℕ → List Message
update id queue queues other = if id == other then queue else queues other

unfoldable pub insert : ℕ → List ℕ → List ℕ
insert p [] = p ∷ []
insert p (q ∷ qs) =
    let rest = insert p qs in if p == q then q ∷ qs else if ltb p q then p ∷ q ∷ qs else q ∷ rest

unfoldable pub erase : ℕ → List ℕ → List ℕ
erase p [] = []
erase p (q ∷ qs) = let rest = erase p qs in if p == q then qs else q ∷ rest

-- Room::join and Room::leave
unfoldable pub join : ℕ → Chat → Chat
unfolding insert
join id c = record c { participants = insert id c.participants }

unfoldable pub leave : ℕ → Chat → Chat
unfolding erase
leave id c = record c { participants = erase id c.participants }

-- Session::async_write starts a write from a buffer over its parameter messageBody, no longer than the text
-- and the length allow. The parameter is destroyed when the function returns, so that what reaches the socket
-- later is not known, and is not modelled: this is only what the buffer holds when the write is started.
unfoldable pub async_write : ℕ → Text → ℕ → Chat → Chat
async_write id message_body message_length c = record c {
  started = c.started ++ (id, take message_length message_body) ∷ [];
}

-- The branches of Session::write behind decodeHeader; `none` is a read past the end of the message.
unfoldable pub write_decoded : ℕ → Message × Bool → Chat → Option Chat
unfolding async_write
write_decoded id (m, ok) c =
    if ok
    then (elim (get_body m) [
      | none ↦ none
      | some body ↦ some (async_write id body m.body_length c)
    ])
    else some c

unfoldable pub write_one : ℕ → Message → Chat → Option Chat
unfolding write_decoded
write_one id message c = write_decoded id (decode_header message) c

-- The loop of Session::write over its queue, each message taken off before it is looked at.
unfoldable pub drain_session : ℕ → List Message → Chat → Option Chat
drain_session id [] c = some c
drain_session id (message ∷ rest) c =
    elim (write_one id message (record c { session_queue = update id rest c.session_queue })) [
      | none ↦ none
      | some c' ↦ drain_session id rest c'
    ]

unfoldable pub session_write : ℕ → Message → Chat → Option Chat
session_write id message c = drain_session id (c.session_queue id ++ message ∷ []) c

-- The loop of Room::deliver over the participants.
unfoldable pub write_to_others : ℕ → Message → List ℕ → Chat → Option Chat
write_to_others sender message [] c = some c
write_to_others sender message (p ∷ ps) c =
    let skipped = write_to_others sender message ps c in
    if sender == p then skipped else (elim (session_write p message c) [
      | none ↦ none
      | some c' ↦ write_to_others sender message ps c'
    ])

unfoldable pub drain_room : ℕ → List Message → Chat → Option Chat
drain_room sender [] c = some c
drain_room sender (message ∷ rest) c =
    elim (write_to_others sender message c.participants (record c { room_queue = rest })) [
      | none ↦ none
      | some c' ↦ drain_room sender rest c'
    ]

-- Room::deliver
unfoldable pub deliver : ℕ → Message → Chat → Option Chat
deliver sender message c = drain_room sender (c.room_queue ++ message ∷ []) c

-- The handlers: a connection that is accepted or not, and a read of a session that completes with
-- some bytes or fails. `memory` is what stands where the message is built.
pub data Event : Type 0 where
  accepted : ℕ → Event
  accept_failed : Event
  received : ℕ → Text → Text → Event
  read_failed : ℕ → Event

unfoldable pub handle : Event → Chat → Option Chat
unfolding join leave
handle (accepted id) c = some (join id c)
handle accept_failed c = some c
handle (received id memory bytes) c = deliver id (construct memory bytes) c
handle (read_failed id) c = some (leave id c)

unfoldable pub run : List Event → Chat → Option Chat
run [] c = some c
run (e ∷ es) c = elim (handle e c) [ none ↦ none | some c' ↦ run es c' ]

-- The room of main.
abbrev pub empty_chat : Chat
empty_chat = record { room_queue = []; participants = []; session_queue = λ id. []; started = [] }
