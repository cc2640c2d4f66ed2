-- ===== src/Simple/Conversation.antt =====
-- The simple client and the simple server over a connection that delivers.
use build_your_own_stuff.Prelude.{
  ℕ, zero, suc, ◌+◌, ◌^◌, ◌<◌, ◌≡◌, refl, ap, sym, ◌∙◌, false, some, List, [], ◌∷◌, ◌++◌,
  append_assoc, append-nil, map, arith, length, Text, codes, Lacks, Lacks-append, text_eq,
  text_eq_refl, lt→ltb,
}
use build_your_own_stuff.MultiClient.Wire.{htonl, ntohl-htonl}
use build_your_own_stuff.Simple.Protocol.{
  Recv, c_string, receive_bytes, receive_message, send_message, before, server_loop, client_loop,
}

-- recv gives the bytes that were asked for, if they are there.
abbrev pub Delivers : Recv → Type 0
Delivers recv = (front rest : Text) → recv (length front) (front ++ rest) ≡ some (front, rest)

-- A line that fits a message, and is not the end of the talk.
abbrev pub IsPlain : Text → Type 0
IsPlain line = Lacks 0 line × (length line + 10 < 2 ^ 31) × (text_eq line (codes "exit") ≡ false)

abbrev pub ArePlain : List Text → Type 0
ArePlain [] = Unit {0}
ArePlain (line ∷ lines) = IsPlain line × ArePlain lines

unfoldable pub messages : List Text → Text
messages [] = []
messages (m ∷ ms) = send_message m ++ messages ms

abbrev pub response : Text → Text
response line = codes "Received: " ++ line

c_string-Lacks : (t : Text) → Lacks 0 t → c_string t ≡ t
unfolding c_string
c_string-Lacks [] h = refl
c_string-Lacks (c ∷ t) h = rw (h.0, c_string-Lacks t h.1) refl

-- The end of what the client sends.
abbrev pub exit_line : Text
exit_line = codes "exit"

module _ (recv : Recv) (delivers : Delivers recv) where
  receive_bytes-message :
      (m rest : Text)
      → Lacks 0 m
      → length m < 2 ^ 31
      → receive_bytes recv (length m) (m ++ rest) ≡ some (m, rest)
  unfolding receive_bytes
  receive_bytes-message m rest l h =
      rw (lt→ltb _ _ h, delivers m rest, receive_bytes)
        (ap (λ t. some (t, rest)) (c_string-Lacks m l))

  -- What sendMessage sends, receiveMessage receives.
  receive_message-send_message :
      (m rest : Text)
      → Lacks 0 m
      → length m < 2 ^ 31
      → receive_message recv (send_message m ++ rest) ≡ some (m, rest)
  unfolding receive_message send_message
  receive_message-send_message m rest l h =
      rw (append_assoc (htonl (length m)) m rest, header, receive_message)
        (ap (λ n. receive_bytes recv n (m ++ rest)) (ntohl-htonl (length m) (omega arith))
          ∙ receive_bytes-message m rest l h)
    where
      header : recv 4 (htonl (length m) ++ (m ++ rest)) ≡ some (htonl (length m), m ++ rest)
      header = unfold htonl in delivers (htonl (length m)) (m ++ rest)

  server_loop-messages :
      (lines : List Text) (turns : ℕ) (more : Text)
      → ArePlain lines
      → length lines < turns
      → server_loop recv turns (messages lines ++ (send_message exit_line ++ more))
        ≡ some (record { shown = lines; sent = messages (map response lines); unread = more })
  unfolding server_loop messages
  server_loop-messages [] zero more p h = absurd (omega arith)
  server_loop-messages [] (suc turns) more p h =
      rw
        (
          receive_message-send_message exit_line more (ground arith) (omega arith),
          server_loop,
          text_eq_refl exit_line,
        )
        refl
  server_loop-messages (line ∷ lines) zero more p h = absurd (omega arith)
  server_loop-messages (line ∷ lines) (suc turns) more p h =
      let there =
        receive_message-send_message line (messages lines ++ (send_message exit_line ++ more)) p.0.0
          (omega (arith, p.0.1)) in
      rw
        (
          append_assoc (send_message line) (messages lines) (send_message exit_line ++ more),
          there,
          p.0.2,
          server_loop,
        )
        (ap (before (line ∷ []) (send_message (response line)))
          (server_loop-messages lines turns more p.1 (omega arith)))

  client_loop-responses :
      (lines later : List Text) (more : Text)
      → ArePlain lines
      → client_loop recv (lines ++ exit_line ∷ later) (messages (map response lines) ++ more)
        ≡ some (record {
          shown = map response lines;
          sent = messages lines ++ send_message exit_line;
          unread = more;
        })
  unfolding client_loop messages
  client_loop-responses [] later more p = rw (text_eq_refl exit_line) refl
  client_loop-responses (line ∷ lines) later more p =
      let fits : length (response line) < 2 ^ 31 = omega (arith, p.0.1) in
      let there =
        receive_message-send_message (response line) (messages (map response lines) ++ more)
          (Lacks-append 0 (codes "Received: ") line (ground arith) p.0.0) fits in
      rw
        (
          p.0.2,
          append_assoc (send_message (response line)) (messages (map response lines)) more,
          there,
        )
        (ap (before (response line ∷ []) (send_message line))
            (client_loop-responses lines later more p.1)
          ∙ ap
              (λ t.
                some
                  (record { shown = response line ∷ map response lines; sent = t; unread = more }))
              (sym (append_assoc (send_message line) (messages lines) (send_message exit_line))))

  -- Over a connection that delivers, the two programs talk to the end: for lines that hold no NUL, fit
  -- a message and are not "exit", up to an "exit", the server gets and shows exactly these lines, the
  -- client shows "Received: " with each of them, in order, each is sent what the other sends, and
  -- nothing is left unreceived.
  pub conversation :
      (lines later : List Text)
      → ArePlain lines
      → (asked answered : Text) × (client_loop recv (lines ++ exit_line ∷ later) answered
          ≡ some (record { shown = map response lines; sent = asked; unread = [] }))
        × (server_loop recv (suc (length lines)) asked
            ≡ some (record { shown = lines; sent = answered; unread = [] }))
  conversation lines later p = (
    messages lines ++ send_message exit_line,
    messages (map response lines),
    ap (client_loop recv (lines ++ exit_line ∷ later))
          (sym (append-nil (messages (map response lines))))
        ∙ client_loop-responses lines later [] p,
    ap (λ t. server_loop recv (suc (length lines)) (messages lines ++ t))
          (sym (append-nil (send_message exit_line)))
        ∙ server_loop-messages lines (suc (length lines)) [] p (omega arith),
  )
