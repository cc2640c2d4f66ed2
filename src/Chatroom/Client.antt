-- ===== src/Chatroom/Client.antt =====
-- chatroom-app/client.cpp: the loop that shows what arrives, and the loop that posts what is typed.
-- Connecting is left out.
use build_your_own_stuff.Prelude.{
  ℕ, zero, suc, Option, none, some, List, [], ◌∷◌, ◌++◌, take, Text, find,
}

-- The handler of async_read, where a newline stands at a position: std::getline takes what is before
-- it, and the client goes on to `next`; where there is none, it reads `longer`.
abbrev pub shown_line : Text → Option ℕ → List Text → List Text → List Text
shown_line buffer none longer next = longer
shown_line buffer (some i) longer next = take i buffer ∷ next

-- async_read, over and over. `chunks` is what the reads that boost::asio::async_read_until is made of
-- bring, each the whole of what it got. A new streambuf is made for each line, and what the last one
-- held behind its line goes with it. What is shown behind "Server: ", until the chunks end.
unfoldable pub async_read : Text → List Text → List Text
async_read buffer [] = []
async_read buffer (chunk ∷ chunks) =
    shown_line (buffer ++ chunk) (find 10 (buffer ++ chunk)) (async_read (buffer ++ chunk) chunks)
      (async_read [] chunks)

-- std::getline into an empty string: where nothing is left to read, it stays empty.
abbrev pub getline : List Text → Text × List Text
getline [] = ([], [])
getline (line ∷ lines) = (line, lines)

-- The texts that the thread of main posts, in as many turns of its loop.
unfoldable pub posted : ℕ → List Text → List Text
posted zero lines = []
posted (suc turns) lines = let (line, rest) = getline lines in (line ++ 10 ∷ []) ∷ posted turns rest
