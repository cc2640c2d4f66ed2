-- ===== src/MultiClient/Routing.antt =====
-- Where the messages of server.cpp go: a direct message from one client to another, end to end.
use build_your_own_stuff.Prelude.{
  ℕ, suc, ◌<◌, ◌≡◌, ◌≢◌, refl, ap, ◌∙◌, some, [], ◌∷◌, ◌++◌, append_assoc, append-nil, arith,
  length, drop, Text, codes, find, text_eq, text_eq_refl, lt→ltb, Lacks, find-append_char,
  take-length-append, if◌then◌else◌,
}
use build_your_own_stuff.MultiClient.NameMap.{lookup, assign, lookup-assign}
use build_your_own_stuff.MultiClient.Wire.{frame, stream}
use build_your_own_stuff.MultiClient.Streams.{sent_to, stream-send_message}
use build_your_own_stuff.MultiClient.Buffer.{receive_body-if}
use build_your_own_stuff.MultiClient.Server.{
  Server, colon, buffer_size, send_message_to_client, handle_login_client, direct_to,
  handle_direct_message, c_string, handle_message, Round, continues, handle_round,
}

-- A text without NUL is read whole.
pub c_string-Lacks : (t : Text) → Lacks 0 t → c_string t ≡ t
unfolding c_string
c_string-Lacks [] h = refl
c_string-Lacks (c ∷ t) h = rw (h.0, c_string-Lacks t h.1) refl

-- A round in which recv brings a whole message.
abbrev pub whole : Text → Text → Round
whole header message = record { header = some header; body = some message }

pub handle_round-whole :
    (header message : Text) (fd : ℕ) (s : Server)
    → length message < buffer_size
    → Lacks 0 message
    → handle_round (whole header message) fd s ≡ handle_message message fd s
unfolding handle_round
handle_round-whole header message fd s h l =
    receive_body-if message fd s
    ∙ rw (lt→ltb _ _ h) (ap (λ t. handle_message t fd s) (c_string-Lacks message l))

drop-length-suc : (s t : Text) (c : ℕ) → drop (suc (length s)) (s ++ c ∷ t) ≡ t
drop-length-suc [] t c = refl
drop-length-suc (x ∷ s) t c = drop-length-suc s t c

pub handle_direct_message-found :
    (name message : Text) (sender : ℕ) (s : Server)
    → Lacks colon name
    → handle_direct_message (name ++ colon ∷ message) sender s
      ≡ direct_to (lookup name s.client_mapp) message sender s
unfolding handle_direct_message
handle_direct_message-found name message sender s h =
    rw (find-append_char colon name message h, handle_direct_message)
      (rw (take-length-append name (colon ∷ message), drop-length-suc name message colon) refl)

-- What a delivered direct message leaves: frames on two sockets, nothing on the others, and the
-- same clients and names.
pub record Delivered (sender receiver : ℕ) (message : Text) (s t : Server) : Type 0 where
  pub clients : t.clients ≡ s.clients
  pub names : t.client_mapp ≡ s.client_mapp
  pub to_receiver :
      stream receiver t.actions
      ≡ stream receiver s.actions ++ frame (codes "Direct message from sender: " ++ message)
  pub to_sender :
      stream sender t.actions
      ≡ stream sender s.actions ++ frame (codes "Direct message sent successfully.")
  pub to_others : (fd : ℕ) → fd ≢ sender → fd ≢ receiver → stream fd t.actions ≡ stream fd s.actions

module _ (sender receiver : ℕ) (message : Text) (s : Server) where
  abbrev relayed : Server
  relayed = send_message_to_client receiver (codes "Direct message from sender: " ++ message) s

  stream-direct_to :
      (fd : ℕ)
      → stream fd (direct_to (some receiver) message sender s).actions
        ≡ stream fd s.actions
          ++ (sent_to fd receiver (codes "Direct message from sender: " ++ message)
              ++ sent_to fd sender (codes "Direct message sent successfully."))
  unfolding direct_to
  stream-direct_to fd =
      stream-send_message fd sender (codes "Direct message sent successfully.") relayed
      ∙ ap (λ t. t ++ sent_to fd sender (codes "Direct message sent successfully."))
          (stream-send_message fd receiver (codes "Direct message from sender: " ++ message) s)
      ∙ append_assoc (stream fd s.actions)
          (sent_to fd receiver (codes "Direct message from sender: " ++ message))
          (sent_to fd sender (codes "Direct message sent successfully."))

  direct_to-Delivered :
      sender ≢ receiver
      → Delivered sender receiver message s (direct_to (some receiver) message sender s)
  direct_to-Delivered ne = record {
    clients = unfold direct_to in refl;
    names = unfold direct_to in refl;
    to_receiver = ground (
      arith,
      stream-direct_to receiver,
      append-nil (frame (codes "Direct message from sender: " ++ message)),
    );
    to_sender = ground (arith, stream-direct_to sender);
    to_others = λ fd p q. ground (arith, stream-direct_to fd, append-nil (stream fd s.actions));
  }

handle_message-direct :
    (rest : Text) (fd : ℕ) (s : Server)
    → handle_message (codes "direct" ++ colon ∷ rest) fd s
      ≡ continues (handle_direct_message rest fd s)
unfolding handle_message find lookup text_eq
handle_message-direct rest fd s = refl

handle_message-login :
    (name : Text) (fd : ℕ) (s : Server)
    → handle_message (codes "login" ++ colon ∷ name) fd s
      ≡ continues (handle_login_client name fd s)
unfolding handle_message find lookup text_eq
handle_message-login name fd s = refl

-- A round with "direct:name:message" that fits the buffer and has no NUL, where the name holds
-- no ':' and stands for another socket, sends the message there and a confirmation back, and
-- does nothing else.
pub direct_round-Delivered :
    (header name message : Text) (sender receiver : ℕ) (s : Server)
    → Lacks colon name
    → Lacks 0 (name ++ colon ∷ message)
    → length (codes "direct" ++ colon ∷ (name ++ colon ∷ message)) < buffer_size
    → lookup name s.client_mapp ≡ some receiver
    → sender ≢ receiver
    → (t : Server) × (handle_round
          (whole header (codes "direct" ++ colon ∷ (name ++ colon ∷ message)))
          sender
          s
        ≡ continues t)
      × Delivered sender receiver message s t
direct_round-Delivered header name message sender receiver s nc nz small found ne = (
  direct_to (some receiver) message sender s,
  handle_round-whole header _ sender s small
        (refl, (refl, (refl, (refl, (refl, (refl, (refl, nz)))))))
      ∙ handle_message-direct (name ++ colon ∷ message) sender s
      ∙ ap continues (handle_direct_message-found name message sender s nc)
      ∙ ap (λ o. continues (direct_to o message sender s)) found,
  direct_to-Delivered sender receiver message s ne,
)

-- A round with "login:name" that fits the buffer and has no NUL in the name binds the name to
-- the socket of its sender, whoever held it before, keeps all other names and the clients, and
-- is confirmed.
pub login_round :
    (header name : Text) (fd : ℕ) (s : Server)
    → Lacks 0 name
    → length (codes "login" ++ colon ∷ name) < buffer_size
    → (t : Server) × (handle_round (whole header (codes "login" ++ colon ∷ name)) fd s
        ≡ continues t)
      × (t.clients ≡ s.clients)
      × ((j : Text)
          → lookup j t.client_mapp ≡ (if text_eq name j then some fd else lookup j s.client_mapp))
      × ((other : ℕ)
          → stream other t.actions
            ≡ stream other s.actions ++ sent_to other fd (codes "Login successful."))
login_round header name fd s nz small = (
  handle_login_client name fd s,
  handle_round-whole header _ fd s small (refl, (refl, (refl, (refl, (refl, (refl, nz))))))
      ∙ handle_message-login name fd s,
  unfold handle_login_client send_message_to_client in refl,
  (λ j.
      unfold handle_login_client send_message_to_client in (lookup-assign name j fd s.client_mapp)),
  λ other.
      unfold handle_login_client in
      (stream-send_message other fd (codes "Login successful.")
        (record s { client_mapp = assign name fd s.client_mapp })),
)

-- A client that logs in under a name without ':' gets the next direct message to it from any
-- other client, and the sender alone a confirmation, if each of the two messages fits the
-- buffer and holds no NUL.
pub login_then_direct :
    (h k name message : Text) (sender receiver : ℕ) (s : Server)
    → Lacks colon name
    → Lacks 0 (name ++ colon ∷ message)
    → Lacks 0 name
    → length (codes "direct" ++ colon ∷ (name ++ colon ∷ message)) < buffer_size
    → length (codes "login" ++ colon ∷ name) < buffer_size
    → sender ≢ receiver
    → (t u : Server) × (handle_round (whole h (codes "login" ++ colon ∷ name)) receiver s
        ≡ continues t)
      × (handle_round (whole k (codes "direct" ++ colon ∷ (name ++ colon ∷ message))) sender t
          ≡ continues u)
      × Delivered sender receiver message t u
login_then_direct h k name message sender receiver s nc nz nn small small' ne =
    let login = login_round h name receiver s nn small' in
    let found : lookup name (login.0).client_mapp ≡ some receiver =
      login.3 name ∙ (rw (text_eq_refl name) refl) in
    let direct =
      direct_round-Delivered k name message sender receiver login.0 nc nz small found ne in
    (login.0, direct.0, login.1, direct.1, direct.2)
