-- ===== src/MultiClient/Race.antt =====
-- handleDirectMessage and handleLoginClient of cpp/socket_programming/multi_client_server/server.cpp in
-- parts: they take no mutex, so that rounds of other threads run between the parts. What two threads do
-- that are inside one operation of std::map at once is undefined, and not modelled.
use build_your_own_stuff.Prelude.{
  ℕ, suc, ◌≡◌, refl, Option, none, some, List, [], ◌∷◌, ◌++◌, take, drop, Text, codes, find,
}
use build_your_own_stuff.MultiClient.NameMap.{NameMap, lookup, assign}
use build_your_own_stuff.MultiClient.Server.{
  Server, colon, send_message_to_client, handle_login_client, Outcome, continues, returns,
  overflows, Round, handle_round,
}

-- What a thread inside a handler does next: the test of client_mapp.find, the use of client_mapp[...],
-- the message to the receiver, the write of client_mapp[username], an answer to its own client, or nothing.
pub data Stage : Type 0 where
  testing : Text → Stage
  indexing : Text → Text → Stage
  relaying : ℕ → Text → Stage
  entering : Text → Stage
  answering : Text → Stage
  finished : Stage

-- client_mapp[name], which enters a missing name with the value 0
unfoldable pub subscript : Text → NameMap ℕ → ℕ × NameMap ℕ
subscript name m = elim (lookup name m) [ none ↦ (0, assign name 0 m) | some v ↦ (v, m) ]

-- The branch on client_mapp.find, for the name and the message.
abbrev pub tested : Option ℕ → Text → Text → Stage
tested none name message = answering (codes "Error: Receiver not found or offline.")
tested (some _) name message = indexing name message

-- One part of a handler that serves `sender`.
unfoldable pub part : ℕ → Stage → Server → Stage × Server
unfolding subscript
part sender (testing event_data) s = elim (find colon event_data) [
  | none ↦ (answering (codes "Error: Invalid message format."), s)
  | some pos ↦
      let name = take pos event_data in
      (tested (lookup name s.client_mapp) name (drop (suc pos) event_data), s)
]
part sender (indexing name message) s =
    let (fd, names) = subscript name s.client_mapp in
    (relaying fd message, record s { client_mapp = names })
part sender (relaying fd message) s = (
  answering (codes "Direct message sent successfully."),
  send_message_to_client fd (codes "Direct message from sender: " ++ message) s,
)
part sender (entering username) s = (
  answering (codes "Login successful."),
  record s { client_mapp = assign username sender s.client_mapp },
)
part sender (answering text) s = (finished, send_message_to_client sender text s)
part sender finished s = (finished, s)

-- A step of the handler, or a whole round of the thread of another socket.
pub data Turn : Type 0 where
  own : Turn
  other : ℕ → Round → Turn

abbrev pub after_round : Stage → Outcome → Option (Stage × Server)
after_round stage (continues s) = some (stage, s)
after_round stage (returns s) = some (stage, s)
after_round stage overflows = none

unfoldable pub turn : ℕ → Turn → Stage × Server → Option (Stage × Server)
unfolding part
turn sender own (stage, s) = some (part sender stage s)
turn sender (other fd r) (stage, s) = after_round stage (handle_round r fd s)

unfoldable pub turns : ℕ → List Turn → Stage × Server → Option (Stage × Server)
unfolding turn
turns sender [] state = some state
turns sender (t ∷ ts) state = elim (turn sender t state) [
  | none ↦ none
  | some state' ↦ turns sender ts state'
]

abbrev pub alone : List Turn
alone = own ∷ own ∷ own ∷ own ∷ []

pub subscript-missing :
    (name : Text) (m : NameMap ℕ) → lookup name m ≡ none → subscript name m ≡ (0, assign name 0 m)
unfolding subscript
subscript-missing name m e = rw (e, subscript) refl

-- The part that uses client_mapp[name], behind its result.
abbrev pub indexed : Text → Server → ℕ × NameMap ℕ → Stage × Server
indexed message s (fd, names) = (relaying fd message, record s { client_mapp = names })

part-indexing :
    (sender : ℕ) (name message : Text) (s : Server)
    → part sender (indexing name message) s ≡ indexed message s (subscript name s.client_mapp)
unfolding part
part-indexing sender name message s = refl

-- And the two parts of handleLoginClient do what that does.
alone-handle_login_client :
    (sender : ℕ) (username : Text) (s : Server)
    → turns sender (own ∷ own ∷ []) (entering username, s)
      ≡ some (finished, handle_login_client username sender s)
unfolding turns part handle_login_client
alone-handle_login_client sender username s = refl
