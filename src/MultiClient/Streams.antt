-- ===== src/MultiClient/Streams.antt =====
-- What each handler of server.cpp sends, as the bytes that each socket gets.
use build_your_own_stuff.Prelude.{
  ℕ, zero, suc, ◌≡◌, ◌≢◌, refl, ap, sym, ◌∙◌, Bool-cases, inl, inr, List, [], ◌∷◌, ◌++◌,
  append_assoc, append-nil, arith, length, Text, codes, ◌==◌, ==_iff, if◌then◌else◌,
}
use build_your_own_stuff.MultiClient.Wire.{send, htonl, frame, stream, stream-append}
use build_your_own_stuff.MultiClient.Server.{
  Server, send_message_to_client, broadcast_loop, broadcast_message,
}

-- A message reaches the socket that it is sent to and no other.
abbrev pub sent_to : ℕ → ℕ → Text → Text
sent_to fd to message = if to == fd then frame message else []

pub stream-send_message :
    (fd to : ℕ) (message : Text) (s : Server)
    → stream fd (send_message_to_client to message s).actions
      ≡ stream fd s.actions ++ sent_to fd to message
unfolding send_message_to_client stream frame
stream-send_message fd to message s =
    stream-append fd s.actions (send to (htonl (length message)) ∷ send to message ∷ [])
    ∙ ap (◌++◌ (stream fd s.actions)) two_sends
  where
    two_sends :
        stream fd (send to (htonl (length message)) ∷ send to message ∷ []) ≡ sent_to fd to message
    two_sends = ground (arith, append-nil message)

-- How often a socket is in a list.
unfoldable pub count : ℕ → List ℕ → ℕ
count fd [] = 0
count fd (c ∷ cs) = let n = count fd cs in if c == fd then suc n else n

-- A text so many times.
unfoldable pub copies : ℕ → Text → Text
copies zero t = []
copies (suc n) t = t ++ copies n t

stream-broadcast_loop :
    (fd sender : ℕ) (message : Text) (cs : List ℕ) (s : Server)
    → fd ≢ sender
    → stream fd (broadcast_loop message sender cs s).actions
      ≡ stream fd s.actions ++ copies (count fd cs) (frame (codes "Broadcast: " ++ message))
unfolding broadcast_loop count copies
stream-broadcast_loop fd sender message [] s h = sym (append-nil (stream fd s.actions))
stream-broadcast_loop fd sender message (c ∷ cs) s h =
    let text = codes "Broadcast: " ++ message in
    ground (
      arith,
      stream-broadcast_loop fd sender message cs s h,
      stream-broadcast_loop fd sender message cs (send_message_to_client c text s) h,
      stream-send_message fd c text s,
      append-nil (stream fd s.actions),
      append_assoc (stream fd s.actions) (frame text) (copies (count fd cs) (frame text)),
    )

stream-broadcast_message_other :
    (fd sender : ℕ) (message : Text) (s : Server)
    → fd ≢ sender
    → stream fd (broadcast_message message sender s).actions
      ≡ stream fd s.actions ++ copies (count fd s.clients) (frame (codes "Broadcast: " ++ message))
unfolding broadcast_message
stream-broadcast_message_other fd sender message s h = ground (
  arith,
  stream-send_message fd sender (codes "Broadcast sent successfully.")
      (broadcast_loop message sender s.clients s),
  stream-broadcast_loop fd sender message s.clients s h,
  append-nil (stream fd (broadcast_loop message sender s.clients s).actions),
)

stream-broadcast_loop_sender :
    (sender : ℕ) (message : Text) (cs : List ℕ) (s : Server)
    → stream sender (broadcast_loop message sender cs s).actions ≡ stream sender s.actions
unfolding broadcast_loop
stream-broadcast_loop_sender sender message [] s = refl
stream-broadcast_loop_sender sender message (c ∷ cs) s =
    let text = codes "Broadcast: " ++ message in
    ground (
      arith,
      stream-broadcast_loop_sender sender message cs s,
      stream-broadcast_loop_sender sender message cs (send_message_to_client c text s),
      stream-send_message sender c text s,
      append-nil (stream sender s.actions),
    )

stream-broadcast_message_sender :
    (sender : ℕ) (message : Text) (s : Server)
    → stream sender (broadcast_message message sender s).actions
      ≡ stream sender s.actions ++ frame (codes "Broadcast sent successfully.")
unfolding broadcast_message
stream-broadcast_message_sender sender message s = ground (
  arith,
  stream-send_message sender sender (codes "Broadcast sent successfully.")
      (broadcast_loop message sender s.clients s),
  stream-broadcast_loop_sender sender message s.clients s,
)

-- A broadcast reaches every socket but the sender's as often as it is among the clients, and the
-- sender gets the confirmation alone.
pub stream-broadcast_message :
    (fd sender : ℕ) (message : Text) (s : Server)
    → stream fd (broadcast_message message sender s).actions
      ≡ stream fd s.actions
        ++ (if fd == sender
            then frame (codes "Broadcast sent successfully.")
            else copies (count fd s.clients) (frame (codes "Broadcast: " ++ message)))
stream-broadcast_message fd sender message s = elim (Bool-cases (fd == sender)) [
  | inl e ↦ rw e (rw ((==_iff fd sender).0 e) (stream-broadcast_message_sender sender message s))
  | inr e ↦ rw e (stream-broadcast_message_other fd sender message s (λ p. ground arith))
]
