-- ===== src/Simple/Examples.antt =====
-- Witnesses and tests for the simple client and server.
use build_your_own_stuff.Prelude.{
  ◌≡◌, refl, false, none, some, List, [], ◌∷◌, ◌++◌, map, arith, length, length-append, take, drop,
  take-length-append, drop-length-append, Text, codes, text_eq, ltb, ◌==◌, if◌then◌else◌,
}
use build_your_own_stuff.Simple.Protocol.{Recv, server_loop, client_loop}
use build_your_own_stuff.Simple.Conversation.{Delivers, ArePlain, response, exit_line, conversation}

-- A connection on which all that was sent has arrived.
abbrev arrived : Recv
arrived n stream = if ltb (length stream) n then none else some (take n stream, drop n stream)

arrived-Delivers : Delivers arrived
arrived-Delivers front rest =
    rw (enough, take-length-append front rest, drop-length-append front rest) refl
  where
    enough : ltb (length (front ++ rest)) (length front) ≡ false
    enough = ground (arith, length-append front rest)

abbrev two_lines : List Text
two_lines = codes "hi" ∷ [] ∷ []

two_lines-ArePlain : ArePlain two_lines
unfolding text_eq
two_lines-ArePlain = (((refl, (refl, tt)), omega arith, refl), ((tt, omega arith, refl), tt))

conversation_test :
    (asked answered : Text) × (client_loop arrived (two_lines ++ exit_line ∷ []) answered
      ≡ some (record { shown = map response two_lines; sent = asked; unread = [] }))
    × (server_loop arrived 3 asked
        ≡ some (record { shown = two_lines; sent = answered; unread = [] }))
conversation_test = conversation arrived arrived-Delivers two_lines [] two_lines-ArePlain

-- A connection on which the first four bytes have arrived, and of what follows two at a time do.
abbrev slowly : Recv
slowly n stream =
    if n == 4 then some (take 4 stream, drop 4 stream) else some (take 2 stream, drop 2 stream)
