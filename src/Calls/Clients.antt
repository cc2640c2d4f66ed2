-- ===== src/Calls/Clients.antt =====
-- The main functions of the clients: client.cpp of cpp/socket_programming/multi_client_server and of
-- simple_client_server, up to their loops.
use build_your_own_stuff.Prelude.{[], ◌∷◌, Text}
use build_your_own_stuff.Calls.Program.{
  socket, inet_pton, connect, Program, exit, running, opens, attempts, opened, checked,
}
use build_your_own_stuff.Calls.Servers.{unchecked}

-- clientStartUp, with the line that std::getline gives for the username
unfoldable pub client_start_up : Text → Program → Program
client_start_up [] next = exit 1
client_start_up (c ∷ cs) next = next

unfoldable pub client_main : Text → Program
unfolding client_start_up
client_main username = client_start_up username (
    opens socket (
      opened (exit 255) (λ sock.
        attempts inet_pton
          (checked (exit 255) (attempts (connect sock 8080) (checked (exit 255) running))))))

unfoldable pub simple_client_main : Program
unfolding unchecked
simple_client_main = opens socket (λ r.
    attempts inet_pton (λ parsed. attempts (connect (unchecked r) 8080) (λ connected. running)))
