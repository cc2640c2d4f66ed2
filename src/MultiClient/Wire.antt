-- ===== src/MultiClient/Wire.antt =====
-- What the server and the client do to their sockets, and the length prefix of a message:
-- cpp/socket_programming/multi_client_server/server.cpp (sendMessageToClient) and client.cpp
-- (sendMessage).
use build_your_own_stuff.Prelude.{
  ℕ, ◌+◌, ◌-◌, ◌*◌, ◌/◌, ◌%◌, ◌^◌, ◌<◌, ◌≡◌, refl, ◌∙◌, List, [], ◌∷◌, ◌++◌, append_assoc,
  append-nil, arith, length, Text, ltb, ◌==◌, if◌then◌else◌,
}

-- One system call on a socket.
pub data Action : Type 0 where
  send : ℕ → Text → Action
  close : ℕ → Action

-- htonl: the four bytes of a 32-bit number, the highest first; a size is cut to 32 bits.
unfoldable pub htonl : ℕ → Text
htonl n = (n / 2 ^ 24 % 256) ∷ (n / 2 ^ 16 % 256) ∷ (n / 2 ^ 8 % 256) ∷ (n % 256) ∷ []

-- ntohl, of the four bytes in memory
unfoldable pub ntohl : Text → ℕ
ntohl (a ∷ b ∷ c ∷ d ∷ _) = a * 2 ^ 24 + b * 2 ^ 16 + c * 2 ^ 8 + d
ntohl _ = 0

-- The length of recv: an int, made a 64-bit size_t; a negative one becomes huge.
unfoldable pub as_size : ℕ → ℕ
as_size n = if ltb n (2 ^ 31) then n else n + (2 ^ 64 - 2 ^ 32)

-- A message on the wire.
unfoldable pub frame : Text → Text
unfolding htonl
frame message = htonl (length message) ++ message

-- The bytes that some calls send to a socket.
unfoldable pub stream : ℕ → List Action → Text
stream fd [] = []
stream fd (send to bytes ∷ rest) =
    let after = stream fd rest in if to == fd then bytes ++ after else after
stream fd (close to ∷ rest) = stream fd rest

pub ntohl-htonl : (n : ℕ) → n < 2 ^ 32 → ntohl (htonl n) ≡ n
unfolding ntohl htonl
ntohl-htonl n h = omega arith

pub as_size-id : (n : ℕ) → n < 2 ^ 31 → as_size n ≡ n
unfolding as_size
as_size-id n h = ground arith

pub stream-append :
    (fd : ℕ) (xs ys : List Action) → stream fd (xs ++ ys) ≡ stream fd xs ++ stream fd ys
unfolding stream
stream-append fd [] ys = refl
stream-append fd (send to bytes ∷ xs) ys =
    ground (arith, stream-append fd xs ys, append_assoc bytes (stream fd xs) (stream fd ys))
stream-append fd (close to ∷ xs) ys = stream-append fd xs ys

pub stream-append_close :
    (fd to : ℕ) (xs : List Action) → stream fd (xs ++ close to ∷ []) ≡ stream fd xs
unfolding stream
stream-append_close fd to xs = stream-append fd xs (close to ∷ []) ∙ append-nil (stream fd xs)
