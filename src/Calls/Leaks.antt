-- ===== src/Calls/Leaks.antt =====
-- What the programs of Calls/Servers and Calls/Clients do when calls fail.
use build_your_own_stuff.Prelude.{
  ℕ, suc, ◌≡◌, refl, ◌∙◌, Bool, true, false, none, some, ◌∷◌, Text, arith,
}
use build_your_own_stuff.Calls.Program.{
  socket, Attempt, setsockopt, bind, fcntl_getfl, inet_pton, Program, opens, exit, attempts, opened,
  checked, Open, nothing_open, with_fd, Kernel, exited, misuses, run, attempt_uses,
}
use build_your_own_stuff.Calls.Servers.{
  poll_main, epoll_main, http_main, multi_client_main, simple_server_main,
}
use build_your_own_stuff.Calls.Clients.{client_main, simple_client_main}

run-socket :
    (k : Kernel) (n fd : ℕ) (failed : Program) (go : ℕ → Program)
    → k.descriptor n nothing_open ≡ some fd
    → run k n nothing_open (opens socket (opened failed go))
      ≡ run k (suc n) (with_fd fd nothing_open) (go fd)
unfolding run
run-socket k n fd failed go h = rw (h, run) refl

run-attempts :
    (k : Kernel) (n : ℕ) (open_fds : Open) (c : Attempt) (next : Bool → Program)
    → attempt_uses c open_fds ≡ true
    → k.success n ≡ false
    → run k n open_fds (attempts c next) ≡ run k (suc n) open_fds (next false)
unfolding run
run-attempts k n open_fds c next u h = rw (u, h, run) refl

run-refused :
    (k : Kernel) (n code : ℕ) (open_fds : Open) (c : Attempt) (go : Program)
    → attempt_uses c open_fds ≡ true
    → k.success n ≡ false
    → run k n open_fds (attempts c (checked (exit code) go)) ≡ exited code open_fds
unfolding run
run-refused k n code open_fds c go u h = rw (u, h, run) refl

-- Where the kernel gives a socket and refuses all that is tried with it, the poll and epoll servers, the
-- HTTP server, the multi-client server, and its client with a username, exit with the socket open; the
-- HTTP server exits as if it had succeeded.
pub run-leaks :
    (k : Kernel) (n turns somaxconn c : ℕ) (cs : Text) (fd : ℕ)
    → k.descriptor n nothing_open ≡ some fd
    → ((i : ℕ) → k.success i ≡ false)
    → (run k n nothing_open (poll_main somaxconn) ≡ exited 1 (with_fd fd nothing_open))
      × (run k n nothing_open (epoll_main somaxconn) ≡ exited 1 (with_fd fd nothing_open))
      × (run k n nothing_open (http_main turns) ≡ exited 0 (with_fd fd nothing_open))
      × (run k n nothing_open (multi_client_main turns) ≡ exited 255 (with_fd fd nothing_open))
      × (run k n nothing_open (client_main (c ∷ cs)) ≡ exited 255 (with_fd fd nothing_open))
unfolding poll_main epoll_main http_main multi_client_main client_main
run-leaks k n turns somaxconn c cs fd given refused =
    let held : with_fd fd nothing_open fd ≡ true = ground arith in
    (
      run-socket k n fd _ _ given ∙ run-refused k (suc n) 1 _ (bind fd 8080) _ held (refused _),
      run-socket k n fd _ _ given
          ∙ run-attempts k (suc n) _ (fcntl_getfl fd) _ held (refused _)
          ∙ run-refused k (suc (suc n)) 1 _ (bind fd 8080) _ held (refused _),
      run-socket k n fd _ _ given ∙ run-refused k (suc n) 0 _ (bind fd 8080) _ held (refused _),
      run-socket k n fd _ _ given
          ∙ run-attempts k (suc n) _ (setsockopt fd) _ held (refused _)
          ∙ run-refused k (suc (suc n)) 255 _ (bind fd 8080) _ held (refused _),
      run-socket k n fd _ _ given ∙ run-refused k (suc n) 255 _ inet_pton _ refl (refused _),
    )

-- Where the kernel gives no socket, the simple server and the simple client go on to use a descriptor
-- that is not open.
pub run-misuses :
    (k : Kernel) (n : ℕ)
    → k.descriptor n nothing_open ≡ none
    → (run k n nothing_open simple_server_main ≡ misuses)
      × (run k n nothing_open simple_client_main ≡ misuses)
unfolding run simple_server_main simple_client_main
run-misuses k n h = (rw (h, run) refl, rw (h, run) refl)
