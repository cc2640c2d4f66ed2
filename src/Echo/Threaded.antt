-- ===== src/Echo/Threaded.antt =====
-- socket_prog/multi_client_threaded.cpp: the thread of one client. The set-up and the accepting loop
-- are left out. What recv gives, call after call, is an argument.
use build_your_own_stuff.Prelude.{
  ℕ, ◌≡◌, refl, ap, Option, none, some, List, [], ◌∷◌, ◌++◌, map, Text,
}
use build_your_own_stuff.Echo.Sockets.{SocketCall, send, close}

-- The loop ends at the first result that is not above 0; with no result yet it waits in recv.
unfoldable pub handle_client : ℕ → List (Option Text) → List SocketCall
handle_client client_fd [] = []
handle_client client_fd (none ∷ later) = close client_fd ∷ []
handle_client client_fd (some bytes ∷ later) = send client_fd bytes ∷ handle_client client_fd later

-- A client whose reads succeed until one fails gets each of them back, in order, and then its socket is
-- closed once and not used again.
pub handle_client-echoes :
    (client_fd : ℕ) (chunks : List Text) (later : List (Option Text))
    → handle_client client_fd (map some chunks ++ none ∷ later)
      ≡ map (send client_fd) chunks ++ close client_fd ∷ []
unfolding handle_client
handle_client-echoes client_fd [] later = refl
handle_client-echoes client_fd (bytes ∷ chunks) later =
    ap (◌∷◌ (send client_fd bytes)) (handle_client-echoes client_fd chunks later)
