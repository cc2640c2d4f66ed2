-- ===== src/Calls/Steps.antt =====
-- The tutorial of socket_prog, step1_socket.cpp to step4_recv_send.cpp.
use build_your_own_stuff.Prelude.{ℕ, zero, suc}
use build_your_own_stuff.Calls.Program.{
  socket, accept, bind, listen, Program, exit, running, opens, attempts, receives, sends, closes,
  opened, checked, arrived,
}

unfoldable pub step1_main : Program
step1_main = opens socket (opened (exit 1) (λ sockfd. closes sockfd (exit 0)))

unfoldable pub step2_main : Program
step2_main = opens socket (
    opened (exit 1) (λ sockfd.
      attempts (bind sockfd 8080) (checked (closes sockfd (exit 1)) (closes sockfd (exit 0)))))

unfoldable pub step3_main : Program
step3_main = opens socket (
    opened (exit 1) (λ server_fd. attempts (bind server_fd 8080) (
      checked (closes server_fd (exit 1)) (
        attempts (listen server_fd 5) (
          checked (closes server_fd (exit 1)) (
            opens (accept server_fd) (
              opened (closes server_fd (exit 1))
                (λ client_fd. closes client_fd (closes server_fd (exit 0))))))))))

-- The loop over recv, for as many turns; it ends at the first result that is not above 0.
unfoldable pub echo_loop : ℕ → ℕ → ℕ → Program
echo_loop zero client_fd server_fd = running
echo_loop (suc turns) client_fd server_fd = receives client_fd 1023 (
    arrived (closes client_fd (closes server_fd (exit 0)))
      (λ bytes. sends client_fd bytes (echo_loop turns client_fd server_fd)))

unfoldable pub step4_main : ℕ → Program
unfolding echo_loop
step4_main turns = opens socket (
    opened (exit 1) (λ server_fd. attempts (bind server_fd 8080) (
      checked (closes server_fd (exit 1)) (
        attempts (listen server_fd 1) (
          checked (closes server_fd (exit 1)) (
            opens (accept server_fd) (
              opened (closes server_fd (exit 1))
                (λ client_fd. echo_loop turns client_fd server_fd))))))))
