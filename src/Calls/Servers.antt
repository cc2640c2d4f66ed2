-- ===== src/Calls/Servers.antt =====
-- The main functions of the servers, up to the loops that Echo and MultiClient are about, and with the
-- loops that only accept: socket_prog/multi_client_select.cpp, multi_client_poll.cpp,
-- multi_client_epoll.cpp and multi_client_threaded.cpp, http_server/server/HttpServer.cpp, and
-- server.cpp of cpp/socket_programming/multi_client_server and simple_client_server.
use build_your_own_stuff.Prelude.{ℕ, zero, suc, ◌-◌, ◌^◌, Option, none, some, List, [], ◌∷◌}
use build_your_own_stuff.Calls.Program.{
  socket, accept, epoll_create1, setsockopt, bind, listen, fcntl_getfl, fcntl_setfl, epoll_add,
  Program, exit, running, opens, attempts, closes, hands, opened, checked,
}

-- `somaxconn` is the constant SOMAXCONN of the system.
unfoldable pub select_main : ℕ → Program
select_main somaxconn = opens socket (
    opened (exit 1) (λ listener. attempts (bind listener 8080) (
      checked (closes listener (exit 1))
        (attempts (listen listener somaxconn) (checked (closes listener (exit 1)) running)))))

unfoldable pub poll_main : ℕ → Program
poll_main somaxconn = opens socket (
    opened (exit 1) (λ listener.
      attempts (bind listener 8080)
        (checked (exit 1) (attempts (listen listener somaxconn) (checked (exit 1) running)))))

-- make_socket_non_blocking, whose result no call of it looks at
unfoldable pub make_socket_non_blocking : ℕ → Program → Program
make_socket_non_blocking fd next =
    attempts (fcntl_getfl fd) (checked next (attempts (fcntl_setfl fd) (λ ok. next)))

unfoldable pub epoll_main : ℕ → Program
unfolding make_socket_non_blocking
epoll_main somaxconn = opens socket (
    opened (exit 1) (λ server_fd. make_socket_non_blocking server_fd (
      attempts (bind server_fd 8080) (
        checked (exit 1) (
          attempts (listen server_fd somaxconn) (
            checked (exit 1) (
              opens epoll_create1 (
                opened (exit 1) (λ epoll_fd.
                  attempts (epoll_add epoll_fd server_fd) (checked (exit 1) running))))))))))

-- A loop that accepts, for as many turns, and gives each client to a thread of its own.
unfoldable pub accept_loop : ℕ → ℕ → Program
accept_loop zero server_fd = running
accept_loop (suc turns) server_fd =
    let again = accept_loop turns server_fd in
    opens (accept server_fd) (opened again (λ client_fd. hands client_fd again))

unfoldable pub threaded_main : ℕ → Program
unfolding accept_loop
threaded_main turns = opens socket (
    opened (exit 1) (λ server_fd. attempts (bind server_fd 8080) (
      checked (closes server_fd (exit 1)) (
        attempts (listen server_fd 10)
          (checked (closes server_fd (exit 1)) (accept_loop turns server_fd))))))

-- HttpServer::start, and main behind it, which returns 0
unfoldable pub http_main : ℕ → Program
unfolding accept_loop
http_main turns = opens socket (
    opened (exit 0) (λ server_fd. attempts (bind server_fd 8080) (
      checked (exit 0)
        (attempts (listen server_fd 5) (checked (exit 0) (accept_loop turns server_fd))))))

-- `return -1` is the exit code 255.
unfoldable pub multi_client_main : ℕ → Program
unfolding accept_loop
multi_client_main turns = opens socket (
    opened (exit 255) (λ server_socket. attempts (setsockopt server_socket) (λ ok.
      attempts (bind server_socket 8080) (
        checked (exit 255) (
          attempts (listen server_socket 5)
            (checked (exit 255) (accept_loop turns server_socket)))))))

unfoldable pub close_all : List ℕ → Program → Program
close_all [] next = next
close_all (client ∷ clients) next = closes client (close_all clients next)

-- shutdownServer, with the global `clients`
unfoldable pub shutdown_server : List ℕ → ℕ → Program
unfolding close_all
shutdown_server clients server_socket = close_all clients (closes server_socket (exit 0))

-- A result that is not looked at: the int -1 has these bits.
unfoldable pub unchecked : Option ℕ → ℕ
unchecked none = 2 ^ 32 - 1
unchecked (some fd) = fd

-- main of simple_client_server/server.cpp, up to its loop
unfoldable pub simple_server_main : Program
unfolding unchecked
simple_server_main = opens socket (λ r. attempts (bind (unchecked r) 8080) (λ bound.
    attempts (listen (unchecked r) 3) (λ listening. opens (accept (unchecked r)) (λ s. running))))
