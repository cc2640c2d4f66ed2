-- ===== src/Chatroom/Examples.antt =====
-- The theorems on the chat room at concrete inputs, and runs of its code.
use build_your_own_stuff.Prelude.{
  ℕ, zero, suc, ◌+◌, ◌≡◌, refl, true, some, List, [], ◌∷◌, ◌++◌, arith, length, replicate, Text,
  codes, Lacks,
}
use build_your_own_stuff.Chatroom.Message.{
  header, max_bytes, sprintf_4d, atoi, construct, decode_header, get_body,
}
use build_your_own_stuff.Chatroom.RoundTrip.{
  decode_header-construct, get_body-construct, length-construct,
}
use build_your_own_stuff.Chatroom.Room.{
  Chat, Event, accepted, received, read_failed, empty_chat, handle, run, join, insert,
}
use build_your_own_stuff.Chatroom.Delivery.{
  others, Started, IsSettled, received-Started, run-IsSettled, long_line_loses_newline,
}
use build_your_own_stuff.Chatroom.Client.{async_read}
use build_your_own_stuff.Chatroom.Lines.{Parts, async_read-arrivals, merged_lines_lost}

headers : sprintf_4d 7 ++ sprintf_4d 512 ≡ codes "   7 512"
unfolding sprintf_4d
headers = refl

negative_header : atoi (codes " -12x") ≡ (true, 12)
unfolding atoi
negative_header = refl

abbrev unwritten : Text
unwritten = replicate 516 0

abbrev three : Chat
three = record {
  room_queue = [];
  participants = 3 ∷ 5 ∷ 8 ∷ [];
  session_queue = λ id. [];
  started = [];
}

three_joined : run (accepted 5 ∷ accepted 8 ∷ accepted 3 ∷ []) empty_chat ≡ some three
unfolding run handle join insert
three_joined = refl

three-IsSettled : IsSettled three
three-IsSettled = record { room_queue = refl; idle = λ id. refl }

decode_header-construct_example :
    decode_header (construct unwritten (codes "hi")) ≡ (construct unwritten (codes "hi"), true)
decode_header-construct_example = decode_header-construct unwritten (codes "hi")

get_body-construct_test : get_body (construct unwritten (codes "hi")) ≡ some (codes "hi")
get_body-construct_test = get_body-construct unwritten (codes "hi")

length-construct_test : length (construct unwritten (codes "hi")).contents ≡ header + max_bytes
length-construct_test = length-construct unwritten (codes "hi") refl

received-Started_example :
    (c : Chat) × (handle (received 5 unwritten (codes "hi")) three ≡ some c)
    × Started (codes "hi") (others 5 (3 ∷ 5 ∷ 8 ∷ [])) three c
received-Started_example = received-Started unwritten (codes "hi") 5 three refl (λ id. refl)

abbrev events : List Event
events = received 5 unwritten (codes "hi") ∷ read_failed 5 ∷ received 3 [] (codes "yo") ∷ []

run-IsSettled_example : (c : Chat) × (run events three ≡ some c) × IsSettled c
run-IsSettled_example = run-IsSettled events three three-IsSettled

abbrev long_line : Text
long_line = replicate 512 b'a'

Lacks-replicate : (n : ℕ) → Lacks 10 (replicate n b'a')
Lacks-replicate zero = tt
Lacks-replicate (suc n) = (refl, Lacks-replicate n)

long_line_loses_newline_test :
    (c : Chat) × (text : Text) × (handle (received 5 unwritten (long_line ++ 10 ∷ [])) three
      ≡ some c)
    × Started text (others 5 (3 ∷ 5 ∷ 8 ∷ [])) three c
    × Lacks 10 text
long_line_loses_newline_test =
    long_line_loses_newline 5 unwritten long_line three refl (λ id. refl) (Lacks-replicate 512)
      (omega arith)

-- "hi" comes in two parts, and "yo" in one.
abbrev two_lines : List Parts
two_lines =
    record { before = codes "h" ∷ []; last = codes "i" }
    ∷ record { before = []; last = codes "yo" }
    ∷ []

async_read-arrivals_example :
    async_read [] (codes "h" ∷ (codes "i" ++ 10 ∷ []) ∷ (codes "yo" ++ 10 ∷ []) ∷ [])
    ≡ codes "hi" ∷ codes "yo" ∷ []
async_read-arrivals_example =
    async_read-arrivals two_lines ((refl, (refl, tt)), ((refl, (refl, tt)), tt))

merged_lines_lost_test :
    async_read [] ((codes "hi" ++ 10 ∷ (codes "yo" ++ 10 ∷ [])) ∷ [])
    ≡ codes "hi" ∷ async_read [] []
merged_lines_lost_test =
    merged_lines_lost (codes "hi") (codes "yo" ++ 10 ∷ []) [] (refl, (refl, tt))
