-- ===== src/Chatroom/Message.antt =====
-- chatroom-app/message.hpp: a message is a buffer of a four-byte decimal header and a body of at
-- most 512 bytes.
use build_your_own_stuff.Prelude.{
  ℕ, ◌+◌, ◌-◌, ◌*◌, ◌%◌, ◌^◌, Bool, true, false, not, ◌&&◌, ◌||◌, Option, none, some, [], ◌∷◌, ◌++◌,
  length, take, drop, replicate, Text, decimal, ltb, leb, ◌==◌, if◌then◌else◌,
}

abbrev pub max_bytes : ℕ
max_bytes = 512

abbrev pub header : ℕ
header = 4

-- `contents` is the member `data`, of header + maxBytes bytes.
pub record Message : Type 0 where
  pub contents : Text
  pub body_length : ℕ

-- memcpy to an offset
unfoldable pub overwrite : ℕ → Text → Text → Text
overwrite offset source target =
    take offset target ++ (source ++ drop (offset + length source) target)

unfoldable pub get_new_body_length : ℕ → ℕ
get_new_body_length new_length = if ltb max_bytes new_length then max_bytes else new_length

-- sprintf with "%4d"
unfoldable pub sprintf_4d : ℕ → Text
unfolding decimal
sprintf_4d n = let text = decimal n in replicate (4 - length text) 32 ++ text

unfoldable pub encode_header : Message → Message
unfolding overwrite sprintf_4d
encode_header m = record m {
  contents = overwrite 0 (take header (sprintf_4d m.body_length)) m.contents;
}

-- Message(std::string), where `memory` is what stood in `data` before.
unfoldable pub construct : Text → Text → Message
unfolding get_new_body_length encode_header overwrite
construct memory message =
    let n = get_new_body_length (length message) in
    let m = encode_header (record { contents = memory; body_length = n }) in
    record m { contents = overwrite header (take n message) m.contents }

is_space : ℕ → Bool
is_space c = c == 32 || (leb 9 c && leb c 13)

is_digit : ℕ → Bool
is_digit c = leb 48 c && leb c 57

-- The number at the start of a text.
unfoldable pub read_digits : ℕ → Text → ℕ
unfolding is_digit
read_digits n [] = n
read_digits n (c ∷ cs) =
    let more = read_digits (n * 10 + (c - 48)) cs in if is_digit c then more else n

read_sign : Text → Bool × ℕ
unfolding read_digits
read_sign [] = (false, 0)
read_sign (c ∷ cs) =
    if c == b'-'
    then (true, read_digits 0 cs)
    else if c == b'+'
    then (false, read_digits 0 cs)
    else (false, read_digits 0 (c ∷ cs))

-- atoi: whether the number is negative, and its size
unfoldable pub atoi : Text → Bool × ℕ
unfolding is_space read_sign
atoi [] = (false, 0)
atoi (c ∷ cs) = let more = atoi cs in if is_space c then more else read_sign (c ∷ cs)

-- The text before the first NUL.
unfoldable pub until_nul : Text → Text
until_nul [] = []
until_nul (c ∷ cs) = let rest = until_nul cs in if c == 0 then [] else c ∷ rest

-- int to size_t
unfoldable pub as_size_t : Bool × ℕ → ℕ
as_size_t (negative, n) = if negative && ltb 0 n then 2 ^ 64 - n else n

-- The end of decodeHeader, with headerValue.
unfoldable pub accept_header : Bool × ℕ → Message → Message × Bool
unfolding as_size_t
accept_header value m =
    if not value.0 && ltb max_bytes value.1
    then (record m { body_length = 0 }, false)
    else (record m { body_length = as_size_t value }, true)

unfoldable pub decode_header : Message → Message × Bool
unfolding atoi until_nul accept_header
decode_header m = accept_header (atoi (until_nul (take header m.contents))) m

-- getData, whose `int length` wraps: `none` is a read past the end of `data`, or the exception of
-- std::string for a negative length.
unfoldable pub get_data : Message → Option Text
get_data m =
    let n = (header + m.body_length) % 2 ^ 32 in
    if leb n (header + max_bytes) then some (take n m.contents) else none

-- getBody: `none` also for the exception of substr behind the end.
unfoldable pub get_body : Message → Option Text
unfolding get_data
get_body m = elim (get_data m) [
  | none ↦ none
  | some text ↦
      if ltb (length text) header then none else some (take m.body_length (drop header text))
]
