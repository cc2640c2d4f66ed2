-- ===== src/Echo/Loops.antt =====
-- The loops of main in socket_prog/multi_client_select.cpp and multi_client_poll.cpp, over the answers of
-- the kernel to as many rounds, and what a round of multi_client_epoll.cpp does to the interest list of the
-- kernel. That select or poll fails, which ends the loop, is left out.
use build_your_own_stuff.Prelude.{ℕ, not, Option, none, some, List, [], ◌∷◌, ◌++◌, ◌==◌}
use build_your_own_stuff.Echo.Sockets.{SocketCall, send, close, Activity, keep}
use build_your_own_stuff.Echo.Select.{settable_round}
use build_your_own_stuff.Echo.Poll.{Pollfd, poll_round}
use build_your_own_stuff.Echo.Epoll.{
  EpollCall, on_socket, make_socket_non_blocking, epoll_add, epoll_del,
}

abbrev pub before_calls :
    {A : Type 0} → List SocketCall → Option (List SocketCall × A) → Option (List SocketCall × A)
before_calls calls none = none
before_calls calls (some later) = some (calls ++ later.0, later.1)

abbrev pub round_then :
    {A : Type 0}
    → (A → Option (List SocketCall × A))
    → Option (List SocketCall × A)
    → Option (List SocketCall × A)
round_then next none = none
round_then next (some round) = before_calls round.0 (next round.1)

unfoldable pub select_loop : ℕ → List Activity → List ℕ → Option (List SocketCall × List ℕ)
select_loop listener [] clients = some ([], clients)
select_loop listener (a ∷ rounds) clients =
    round_then (select_loop listener rounds) (settable_round listener a clients)

unfoldable pub poll_loop : ℕ → List Activity → List Pollfd → Option (List SocketCall × List Pollfd)
poll_loop listener [] fds = some ([], fds)
poll_loop listener (a ∷ rounds) fds =
    round_then (poll_loop listener rounds) (poll_round listener a fds)

-- What a call does to the interest list of the kernel. A descriptor that is closed leaves it, so that
-- EPOLL_CTL_DEL behind the close finds nothing.
abbrev pub interest : EpollCall → List ℕ → List ℕ
interest (on_socket (send fd bytes)) fds = fds
interest (on_socket (close fd)) fds = keep (λ x. not (x == fd)) fds
interest (make_socket_non_blocking fd) fds = fds
interest (epoll_add fd) fds = fds ++ fd ∷ []
interest (epoll_del fd) fds = keep (λ x. not (x == fd)) fds

abbrev pub interests : List EpollCall → List ℕ → List ℕ
interests [] fds = fds
interests (c ∷ cs) fds = interests cs (interest c fds)
