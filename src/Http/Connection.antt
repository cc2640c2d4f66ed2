-- ===== src/Http/Connection.antt =====
-- http_server/server/HttpServer.cpp: one connection, from its request to its end. Setting up the
-- listening socket is left out.
use build_your_own_stuff.Prelude.{ℕ, Option, none, some, List, [], ◌∷◌, Text, ◌==◌, if◌then◌else◌}
use build_your_own_stuff.Http.Files.{Files}
use build_your_own_stuff.Http.Request.{handle}

-- What is done to the socket of a client.
pub data Action : Type 0 where
  send : ℕ → Text → Action
  close : ℕ → Action

-- The bytes of `buffer` that std::string(buffer) takes: those before the first NUL.
unfoldable pub c_string : Text → Text
c_string [] = []
c_string (c ∷ cs) = let rest = c_string cs in if c == 0 then [] else c ∷ rest

-- The one call of recv, for 4095 bytes at most: `none` is a result of 0 or less.
unfoldable pub read_request : Option Text → Text
unfolding c_string
read_request none = []
read_request (some bytes) = c_string bytes

unfoldable pub handle_client : Files → ℕ → Option Text → List Action
unfolding read_request
handle_client files client_fd bytes =
    send client_fd (handle files (read_request bytes)) ∷ close client_fd ∷ []
