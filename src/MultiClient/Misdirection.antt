-- ===== src/MultiClient/Misdirection.antt =====
-- A direct message and the logout of its receiver, as their threads can interleave in
-- cpp/socket_programming/multi_client_server/server.cpp.
use build_your_own_stuff.Prelude.{
  ℕ, suc, ◌≡◌, ◌≢◌, refl, ap, ◌∙◌, Option, none, some, List, [], ◌∷◌, ◌++◌, append-nil, arith, take,
  drop, Text, codes, find, text_eq_refl,
}
use build_your_own_stuff.MultiClient.NameMap.{
  NameMap, lookup, assign, erase_value, lookup-assign, lookup-erase_value,
}
use build_your_own_stuff.MultiClient.Wire.{frame, stream, stream-append_close}
use build_your_own_stuff.MultiClient.Streams.{sent_to, stream-send_message}
use build_your_own_stuff.MultiClient.Server.{
  Server, colon, send_message_to_client, handle_logout_client, remove_client, returns, Round,
  handle_round,
}
use build_your_own_stuff.MultiClient.Schedule.{IsOrdered}
use build_your_own_stuff.MultiClient.Race.{
  Stage, testing, indexing, finished, tested, part, Turn, own, other, after_round, turns, indexed,
  subscript-missing,
}

handle_round-gone :
    (r : Round) (fd : ℕ) (s : Server)
    → r.header ≡ none
    → handle_round r fd s ≡ returns (handle_logout_client fd s)
unfolding handle_round
handle_round-gone r fd s e = rw (e, handle_round) refl

-- What a logout sends.
stream-logout :
    (fd leaving : ℕ) (s : Server)
    → stream fd (handle_logout_client leaving s).actions
      ≡ stream fd s.actions ++ sent_to fd leaving (codes "Logout successful.")
unfolding handle_logout_client
stream-logout fd leaving s =
    let left : Server = record s {
      client_mapp = erase_value leaving s.client_mapp;
      clients = remove_client leaving s.clients;
    } in
    stream-append_close fd leaving
      (send_message_to_client leaving (codes "Logout successful.") left).actions
    ∙ stream-send_message fd leaving (codes "Logout successful.") left

logout-lookup :
    (fd : ℕ) (name : Text) (s : Server)
    → IsOrdered s
    → lookup name s.client_mapp ≡ some fd
    → lookup name (handle_logout_client fd s).client_mapp ≡ none
unfolding handle_logout_client
logout-lookup fd name s a e = ground (arith, lookup-erase_value fd name s.client_mapp a)

-- The message reached the descriptor 0, which also has the name now, and the sender was told that it was
-- delivered, while its receiver was told of its logout only.
pub record Misdirected (sender receiver : ℕ) (name message : Text) (s t : Server) : Type 0 where
  pub entered : lookup name t.client_mapp ≡ some 0
  pub to_zero :
      stream 0 t.actions
      ≡ stream 0 s.actions ++ frame (codes "Direct message from sender: " ++ message)
  pub to_sender :
      stream sender t.actions
      ≡ stream sender s.actions ++ frame (codes "Direct message sent successfully.")
  pub to_receiver :
      stream receiver t.actions ≡ stream receiver s.actions ++ frame (codes "Logout successful.")

module _ (sender receiver : ℕ) (name message : Text) (s : Server) where
  abbrev left : Server
  left = handle_logout_client receiver s

  abbrev reentered : Server
  reentered = record left { client_mapp = assign name 0 left.client_mapp }

  abbrev misdirected : Server
  misdirected =
      send_message_to_client sender (codes "Direct message sent successfully.")
        (send_message_to_client 0 (codes "Direct message from sender: " ++ message) reentered)

  stream-misdirected :
      (fd : ℕ)
      → stream fd misdirected.actions
        ≡ ((stream fd s.actions ++ sent_to fd receiver (codes "Logout successful."))
            ++ sent_to fd 0 (codes "Direct message from sender: " ++ message))
          ++ sent_to fd sender (codes "Direct message sent successfully.")
  stream-misdirected fd =
      stream-send_message fd sender (codes "Direct message sent successfully.")
        (send_message_to_client 0 (codes "Direct message from sender: " ++ message) reentered)
      ∙ ap (λ (t : Text). t ++ sent_to fd sender (codes "Direct message sent successfully."))
          (stream-send_message fd 0 (codes "Direct message from sender: " ++ message) reentered
            ∙ ap (λ (t : Text). t ++ sent_to fd 0 (codes "Direct message from sender: " ++ message))
                (stream-logout fd receiver s))

  misdirected-Misdirected :
      sender ≢ receiver
      → sender ≢ 0
      → receiver ≢ 0
      → Misdirected sender receiver name message s misdirected
  misdirected-Misdirected ne p q = record {
    entered =
        unfold send_message_to_client in
        (lookup-assign name name 0 left.client_mapp ∙ rw (text_eq_refl name) refl);
    to_zero = ground (
      arith,
      stream-misdirected 0,
      append-nil (stream 0 s.actions),
      append-nil (stream 0 s.actions ++ frame (codes "Direct message from sender: " ++ message)),
    );
    to_sender = ground (arith, stream-misdirected sender, append-nil (stream sender s.actions));
    to_receiver = ground (
      arith,
      stream-misdirected receiver,
      append-nil (stream receiver s.actions ++ frame (codes "Logout successful.")),
    );
  }

  -- The parts behind the logout.
  turns-left :
      lookup name left.client_mapp ≡ none
      → turns sender (own ∷ own ∷ own ∷ []) (indexing name message, left)
        ≡ some (finished, misdirected)
  unfolding turns part
  turns-left e =
      ap (λ (p : ℕ × NameMap ℕ). turns sender (own ∷ own ∷ []) (indexed message left p))
        (subscript-missing name left.client_mapp e)

-- The schedule of the race: the test, the round in which the receiver is gone, and the rest.
abbrev pub racing : ℕ → Round → List Turn
racing receiver r = own ∷ other receiver r ∷ own ∷ own ∷ own ∷ []

then_turns : ℕ → List Turn → Option (Stage × Server) → Option (Stage × Server)
then_turns sender ts o = elim o [ none ↦ none | some state ↦ turns sender ts state ]

turns-tested :
    (sender receiver : ℕ) (r : Round) (name message : Text) (s : Server)
    → r.header ≡ none
    → turns sender (other receiver r ∷ own ∷ own ∷ own ∷ []) (indexing name message, s)
      ≡ turns sender (own ∷ own ∷ own ∷ []) (indexing name message, handle_logout_client receiver s)
unfolding turns then_turns
turns-tested sender receiver r name message s gone =
    ap (λ o. then_turns sender (own ∷ own ∷ own ∷ []) (after_round (indexing name message) o))
      (handle_round-gone r receiver s gone)

part-testing :
    (sender receiver pos : ℕ) (event_data : Text) (s : Server)
    → find colon event_data ≡ some pos
    → lookup (take pos event_data) s.client_mapp ≡ some receiver
    → part sender (testing event_data) s
      ≡ (indexing (take pos event_data) (drop (suc pos) event_data), s)
unfolding part
part-testing sender receiver pos event_data s found bound =
    let state : Option ℕ → Stage × Server =
      λ o. (tested o (take pos event_data) (drop (suc pos) event_data), s) in
    rw (found, part) (ap state bound)

-- If, between the test in handleDirectMessage and its client_mapp[...], the connection of the receiver
-- ends and its thread logs it out, then the handler enters the name of the receiver again, for the
-- descriptor 0, sends the message to this descriptor, and tells the sender that it was delivered; the
-- receiver gets its logout and nothing more. This is stated of clients with different descriptors that
-- are not 0, and of names in ascending order.
pub direct_logout_race :
    (sender receiver pos : ℕ) (event_data : Text) (r : Round) (s : Server)
    → IsOrdered s
    → find colon event_data ≡ some pos
    → lookup (take pos event_data) s.client_mapp ≡ some receiver
    → sender ≢ receiver
    → sender ≢ 0
    → receiver ≢ 0
    → r.header ≡ none
    → (t : Server) × (turns sender (racing receiver r) (testing event_data, s) ≡ some (finished, t))
      × Misdirected sender receiver (take pos event_data) (drop (suc pos) event_data) s t
unfolding turns
direct_logout_race sender receiver pos event_data r s a found bound ne p q gone =
    let name = take pos event_data in
    let message = drop (suc pos) event_data in
    (
      misdirected sender receiver name message s,
      ap (turns sender (other receiver r ∷ own ∷ own ∷ own ∷ []))
            (part-testing sender receiver pos event_data s found bound)
          ∙ turns-tested sender receiver r name message s gone
          ∙ turns-left sender receiver name message s (logout-lookup receiver name s a bound),
      misdirected-Misdirected sender receiver name message s ne p q,
    )
