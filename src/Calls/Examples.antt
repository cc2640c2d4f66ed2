-- ===== src/Calls/Examples.antt =====
-- Witnesses and tests for the programs of system calls.
use build_your_own_stuff.Prelude.{
  ℕ, ◌≡◌, refl, true, false, Option, none, some, [], ◌∷◌, ◌++◌, arith, codes, ◌==◌, if◌then◌else◌,
}
use build_your_own_stuff.Calls.Program.{
  Open, nothing_open, with_fd, Kernel, IsFresh, exited, misuses, run,
}
use build_your_own_stuff.Calls.Owns.{Keeps, run-Keeps}
use build_your_own_stuff.Calls.Steps.{step1_main, step2_main, step3_main, step4_main}
use build_your_own_stuff.Calls.Servers.{
  select_main, poll_main, epoll_main, threaded_main, http_main, multi_client_main, shutdown_server,
  simple_server_main,
}
use build_your_own_stuff.Calls.Clients.{client_main, simple_client_main}
use build_your_own_stuff.Calls.Tidy.{Closed, all_of, step3-Owns, run-Closed, shutdown_server-Closed}
use build_your_own_stuff.Calls.Leaks.{run-leaks, run-misuses}

-- Gives 3 while it is not open, and then 4; receives "hi" once.
abbrev next_free : Open → Option ℕ
next_free open_fds = if open_fds 3 then (if open_fds 4 then none else some 4) else some 3

abbrev willing : Kernel
willing = record {
  descriptor = λ n open_fds. next_free open_fds;
  success = λ n. true;
  received = λ n. if n == 4 then some (codes "hi") else none;
}

abbrev refusing : Kernel
refusing = record willing { success = λ n. false }

abbrev closed : Kernel
closed = record willing { descriptor = λ n open_fds. none }

willing-IsFresh : IsFresh willing
willing-IsFresh n open_fds fd h = ground arith

run-Closed_example :
    Keeps Closed (run willing 0 nothing_open step1_main)
    × Keeps Closed (run willing 0 nothing_open step2_main)
    × Keeps Closed (run willing 0 nothing_open step3_main)
    × Keeps Closed (run willing 0 nothing_open (step4_main 5))
    × Keeps Closed (run willing 0 nothing_open (select_main 128))
    × Keeps Closed (run willing 0 nothing_open (threaded_main 5))
run-Closed_example = run-Closed willing 0 5 128 willing-IsFresh

shutdown_server-Closed_test :
    Keeps Closed (run willing 0 (all_of (5 ∷ 6 ∷ [] ++ 3 ∷ [])) (shutdown_server (5 ∷ 6 ∷ []) 3))
shutdown_server-Closed_test =
    shutdown_server-Closed willing 0 (5 ∷ 6 ∷ []) 3 willing-IsFresh (refl, (refl, (refl, tt)))

run-leaks_test :
    (run refusing 0 nothing_open (poll_main 128) ≡ exited 1 (with_fd 3 nothing_open))
    × (run refusing 0 nothing_open (epoll_main 128) ≡ exited 1 (with_fd 3 nothing_open))
    × (run refusing 0 nothing_open (http_main 5) ≡ exited 0 (with_fd 3 nothing_open))
    × (run refusing 0 nothing_open (multi_client_main 5) ≡ exited 255 (with_fd 3 nothing_open))
    × (run refusing 0 nothing_open (client_main (codes "ann"))
        ≡ exited 255 (with_fd 3 nothing_open))
run-leaks_test = run-leaks refusing 0 5 128 97 (codes "nn") 3 refl (λ i. refl)

run-misuses_test :
    (run closed 0 nothing_open simple_server_main ≡ misuses)
    × (run closed 0 nothing_open simple_client_main ≡ misuses)
run-misuses_test = run-misuses closed 0 refl

-- The tutorial's last step echoes what is received, and exits with everything closed.
step4_test : Keeps Closed (run willing 0 nothing_open (step4_main 2))
unfolding run step4_main
step4_test = λ fd. ground arith

run-Keeps_test : Keeps Closed (run willing 0 nothing_open step3_main)
run-Keeps_test = run-Keeps Closed willing 0 nothing_open step3_main willing-IsFresh step3-Owns
