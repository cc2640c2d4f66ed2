-- ===== src/Chatroom/Delivery.antt =====
-- Which writes are started in the room of chatroom-app/chatRoom.cpp.
use build_your_own_stuff.Prelude.{
  ℕ, zero, suc, ◌≤◌, ◌≡◌, refl, ap, sym, ◌∙◌, true, Bool-cases, inl, inr, some, List, [], ◌∷◌, ◌++◌,
  map, append_assoc, append-nil, arith, length, take, Text, Lacks, ◌==◌, if◌then◌else◌,
}
use build_your_own_stuff.Chatroom.Message.{Message, construct, max_bytes, get_body}
use build_your_own_stuff.Chatroom.RoundTrip.{
  decode_header-construct, get_body-construct, take-body_length,
}
use build_your_own_stuff.Chatroom.Room.{
  Chat, Event, received, accepted, accept_failed, read_failed, update, join, leave, async_write,
  write_decoded, write_one, drain_session, session_write, write_to_others, drain_room, deliver,
  handle, run,
}

-- The participants other than the sender.
unfoldable pub others : ℕ → List ℕ → List ℕ
others sender [] = []
others sender (p ∷ ps) = let rest = others sender ps in if sender == p then rest else p ∷ rest

Lacks-take-append : (n : ℕ) (s t : Text) → Lacks 10 s → n ≤ length s → Lacks 10 (take n (s ++ t))
Lacks-take-append zero s t l h = tt
Lacks-take-append (suc n) [] t l h = absurd (omega arith)
Lacks-take-append (suc n) (x ∷ s) t l h = (l.0, Lacks-take-append n s t l.1 (omega arith))

-- No session has a message waiting.
abbrev pub IsIdle : Chat → Type 0
IsIdle c = (id : ℕ) → c.session_queue id ≡ []

-- `after` is `before` with a write of the text started once on each of some sessions, and nothing waiting.
pub record Started (text : Text) (to : List ℕ) (before after : Chat) : Type 0 where
  pub participants : after.participants ≡ before.participants
  pub room_queue : after.room_queue ≡ before.room_queue
  pub idle : IsIdle after
  pub started : after.started ≡ before.started ++ map (λ id. (id, text)) to

write_decoded-body :
    (id : ℕ) (m : Message) (body : Text) (c : Chat)
    → get_body m ≡ some body
    → write_decoded id (m, true) c ≡ some (async_write id body m.body_length c)
unfolding write_decoded
write_decoded-body id m body c b = rw b refl

module _ (memory bytes : Text) where
  abbrev message : Message
  message = construct memory bytes

  write_one-construct :
      (id : ℕ) (c : Chat)
      → write_one id message c
        ≡ some (record c { started = c.started ++ (id, take max_bytes bytes) ∷ [] })
  unfolding write_one
  write_one-construct id c =
      ap (λ r. write_decoded id r c) (decode_header-construct memory bytes)
      ∙ write_decoded-body id message (take max_bytes bytes) c (get_body-construct memory bytes)
      ∙ ap (λ (t : Text). some (record c { started = c.started ++ (id, t) ∷ [] }))
          (take-body_length memory bytes)

  -- Session::write of a message on an idle chat.
  written_once : ℕ → Chat → Chat
  written_once id c = record c {
    session_queue = update id [] c.session_queue;
    started = c.started ++ (id, take max_bytes bytes) ∷ [];
  }

  session_write-construct :
      (id : ℕ) (c : Chat) → IsIdle c → session_write id message c ≡ some (written_once id c)
  unfolding session_write drain_session written_once
  session_write-construct id c idle =
      ap (λ q. drain_session id (q ++ message ∷ []) c) (idle id)
      ∙ rw
          (
            write_one-construct id (record c { session_queue = update id [] c.session_queue }),
            drain_session,
          )
          refl

  written_once-IsIdle : (id : ℕ) (c : Chat) → IsIdle c → IsIdle (written_once id c)
  unfolding written_once
  written_once-IsIdle id c idle other = ground (arith, idle other)

  write_to_others-Started :
      (sender : ℕ) (ps : List ℕ) (c : Chat)
      → IsIdle c
      → (c' : Chat) × (write_to_others sender message ps c ≡ some c')
        × Started (take max_bytes bytes) (others sender ps) c c'
  unfolding write_to_others others written_once
  write_to_others-Started sender [] c idle = (
    c,
    refl,
    record {
      participants = refl;
      room_queue = refl;
      idle = idle;
      started = sym (append-nil c.started);
    },
  )
  write_to_others-Started sender (p ∷ ps) c idle = elim (Bool-cases (sender == p)) [
    | inl same ↦ rw same (write_to_others-Started sender ps c idle)
    | inr other ↦
        let rest =
          write_to_others-Started sender ps (written_once p c) (written_once-IsIdle p c idle) in
        rw other (
          rest.0,
          rw (session_write-construct p c idle) rest.1,
          record {
            participants = rest.2.participants;
            room_queue = rest.2.room_queue;
            idle = rest.2.idle;
            started =
                rest.2.started
                ∙ append_assoc c.started ((p, take max_bytes bytes) ∷ [])
                    (map (λ id. (id, take max_bytes bytes)) (others sender ps));
          },
        )
  ]

  -- For what a session receives while nothing waits in a queue, a write is started to every other participant,
  -- once each and in order, from a buffer that then holds its first 512 bytes, and none to the sender; the
  -- participants stay, no message is left waiting, and the messages are decoded without a read out of range.
  -- What becomes of the buffers behind the start of the writes is not stated.
  pub received-Started :
      (sender : ℕ) (c : Chat)
      → c.room_queue ≡ []
      → IsIdle c
      → (c' : Chat) × (handle (received sender memory bytes) c ≡ some c')
        × Started (take max_bytes bytes) (others sender c.participants) c c'
  unfolding handle deliver drain_room
  received-Started sender c empty idle =
      let sent =
        write_to_others-Started sender c.participants (record c { room_queue = [] }) idle in
      (
        sent.0,
        ap (λ q. drain_room sender (q ++ message ∷ []) c) empty ∙ rw (sent.1, drain_room) refl,
        record {
          participants = sent.2.participants;
          room_queue = sent.2.room_queue ∙ sym empty;
          idle = sent.2.idle;
          started = sent.2.started;
        },
      )

-- Between events nothing waits in any queue.
pub record IsSettled (c : Chat) : Type 0 where
  pub room_queue : c.room_queue ≡ []
  pub idle : IsIdle c

handle-IsSettled :
    (e : Event) (c : Chat) → IsSettled c → (c' : Chat) × (handle e c ≡ some c') × IsSettled c'
handle-IsSettled (accepted id) c h = (
  join id c,
  unfold handle in refl,
  unfold join in record { room_queue = h.room_queue; idle = h.idle },
)
handle-IsSettled accept_failed c h = (c, unfold handle in refl, h)
handle-IsSettled (received id memory bytes) c h =
    let sent = received-Started memory bytes id c h.room_queue h.idle in
    (sent.0, sent.1, record { room_queue = sent.2.room_queue ∙ h.room_queue; idle = sent.2.idle })
handle-IsSettled (read_failed id) c h = (
  leave id c,
  unfold handle in refl,
  unfold leave in record { room_queue = h.room_queue; idle = h.idle },
)

-- No event makes the server read past a message, and each leaves the queues empty: the run of any
-- events from a settled chat succeeds and ends settled.
pub run-IsSettled :
    (es : List Event) (c : Chat) → IsSettled c → (c' : Chat) × (run es c ≡ some c') × IsSettled c'
unfolding run
run-IsSettled [] c h = (c, refl, h)
run-IsSettled (e ∷ es) c h =
    let one = handle-IsSettled e c h in
    let rest = run-IsSettled es one.0 one.2 in (rest.0, rw (one.1, run) rest.1, rest.2)

-- While nothing waits in a queue, the writes that a received line of 512 bytes or more starts to the other
-- participants are without its newline, by which the clients tell where it ends.
pub long_line_loses_newline :
    (sender : ℕ) (memory line : Text) (c : Chat)
    → c.room_queue ≡ []
    → IsIdle c
    → Lacks 10 line
    → max_bytes ≤ length line
    → (c' : Chat) × (text : Text) × (handle (received sender memory (line ++ 10 ∷ [])) c ≡ some c')
      × Started text (others sender c.participants) c c'
      × Lacks 10 text
long_line_loses_newline sender memory line c empty idle l long =
    let sent = received-Started memory (line ++ 10 ∷ []) sender c empty idle in
    (
      sent.0,
      take max_bytes (line ++ 10 ∷ []),
      sent.1,
      sent.2,
      Lacks-take-append max_bytes line (10 ∷ []) l long,
    )
