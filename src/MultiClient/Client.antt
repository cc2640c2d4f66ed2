-- ===== src/MultiClient/Client.antt =====
-- cpp/socket_programming/multi_client_server/client.cpp: what the client sends for the lines that
-- its user types, and what it shows of the frames that it receives. Its prompts and notices on
-- std::cout and std::cerr are left out.
use build_your_own_stuff.Prelude.{
  ℕ, ◌^◌, ◌<◌, ◌≡◌, refl, ap, sym, ◌∙◌, Bool, true, false, none, some, List, [], ◌∷◌, ◌++◌,
  append_assoc, append-nil, arith, length, Text, codes, text_eq, if◌then◌else◌,
}
use build_your_own_stuff.MultiClient.Wire.{
  Action, send, close, htonl, frame, stream, stream-append, stream-append_close, ntohl, ntohl-htonl,
  as_size, as_size-id,
}
use build_your_own_stuff.MultiClient.Server.{Round, c_string}

-- Whether each of the two calls of send in sendMessage succeeds.
pub record Sends : Type 0 where
  pub length_sent : Bool
  pub content_sent : Bool

-- sendMessage: without the length the content is not tried.
unfoldable pub send_message : Sends → ℕ → Text → List Action → List Action
send_message ok socket message actions =
    if ok.length_sent
    then (if ok.content_sent
        then actions ++ send socket (htonl (length message)) ∷ send socket message ∷ []
        else actions ++ send socket (htonl (length message)) ∷ [])
    else actions

abbrev pub is_blank : Text → Bool
is_blank [] = true
is_blank (c ∷ cs) = false

abbrev pub logout_line : Text
logout_line = codes "logout"

-- The main loop, over the lines of std::cin and how each one's sends go: an empty line is refused,
-- and "logout" is sent and then ends the loop.
unfoldable pub send_lines : List (Text × Sends) → ℕ → List Action → List Action
unfolding send_message
send_lines [] socket actions = actions
send_lines ((msg, ok) ∷ rest) socket actions =
    let sent = send_message ok socket msg actions in
    let skipped = send_lines rest socket actions in
    let more = send_lines rest socket sent in
    if is_blank msg
    then skipped
    else if text_eq msg logout_line
    then sent ++ close socket ∷ []
    else more

-- The client from its connection on: the login, then the lines.
unfoldable pub client_session : Text → Sends → List (Text × Sends) → ℕ → List Action
unfolding send_lines
client_session username ok inputs socket =
    send_lines inputs socket (send_message ok socket (codes "login:" ++ username) [])

-- receiveMessages: the texts shown, and whether the server was seen to go. A round whose second
-- recv fails is passed over.
unfoldable pub receive_messages : List Round → List Text × Bool
receive_messages [] = ([], false)
receive_messages (r ∷ rounds) =
    let rest = receive_messages rounds in
    elim r.header [
      | none ↦ ([], true)
      | some _ ↦ elim r.body [ none ↦ rest | some bytes ↦ (c_string bytes ∷ rest.0, rest.1) ]
    ]

-- What a user's lines mean: those that are not empty, up to the first "logout".
unfoldable pub meant : List Text → List Text
meant [] = []
meant (msg ∷ rest) =
    let more = meant rest in
    if is_blank msg then more else if text_eq msg logout_line then msg ∷ [] else msg ∷ more

unfoldable pub frames : List Text → Text
frames [] = []
frames (m ∷ ms) = frame m ++ frames ms

abbrev pub sends_work : Sends
sends_work = record { length_sent = true; content_sent = true }

-- Every send succeeds.
abbrev pub all_sent : List Text → List (Text × Sends)
all_sent [] = []
all_sent (msg ∷ rest) = (msg, sends_work) ∷ all_sent rest

stream-send_message :
    (socket : ℕ) (message : Text) (actions : List Action)
    → stream socket (send_message sends_work socket message actions)
      ≡ stream socket actions ++ frame message
unfolding send_message
stream-send_message socket message actions =
    stream-append socket actions (send socket (htonl (length message)) ∷ send socket message ∷ [])
    ∙ ap (λ t. stream socket actions ++ t) two_sends
  where
    two_sends :
        stream socket (send socket (htonl (length message)) ∷ send socket message ∷ [])
        ≡ frame message
    two_sends = unfold stream frame in (ground (arith, append-nil message))

stream-send_lines :
    (socket : ℕ) (lines : List Text) (actions : List Action)
    → stream socket (send_lines (all_sent lines) socket actions)
      ≡ stream socket actions ++ frames (meant lines)
unfolding send_lines meant frames
stream-send_lines socket [] actions = sym (append-nil (stream socket actions))
stream-send_lines socket (msg ∷ rest) actions = ground (
  arith,
  stream-send_lines socket rest actions,
  stream-send_lines socket rest (send_message sends_work socket msg actions),
  stream-send_message socket msg actions,
  stream-append_close socket socket (send_message sends_work socket msg actions),
  append-nil (frame msg),
  append_assoc (stream socket actions) (frame msg) (frames (meant rest)),
)

-- If its sends succeed, the server gets exactly these bytes: the framed login, then the frames of
-- the lines that are not empty, up to the first "logout" and with it.
pub stream-client_session :
    (username : Text) (lines : List Text) (socket : ℕ)
    → stream socket (client_session username sends_work (all_sent lines) socket)
      ≡ frame (codes "login:" ++ username) ++ frames (meant lines)
unfolding client_session
stream-client_session username lines socket =
    stream-send_lines socket lines (send_message sends_work socket (codes "login:" ++ username) [])
    ∙ ap (λ t. t ++ frames (meant lines))
        (stream-send_message socket (codes "login:" ++ username) [] ∙ unfold stream in refl)

-- The first four bytes of a framed message below 2 GiB make the receiver ask for its exact length,
-- and the rest is the message.
pub frame_claim :
    (message : Text)
    → length message < 2 ^ 31
    → (header : Text) × (frame message ≡ header ++ message)
      × (length header ≡ 4)
      × (as_size (ntohl header) ≡ length message)
frame_claim message h = (
  htonl (length message),
  unfold frame in refl,
  unfold htonl in refl,
  ap as_size (ntohl-htonl (length message) (omega arith)) ∙ as_size-id (length message) h,
)
