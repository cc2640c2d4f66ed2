-- ===== src/Echo/Epoll.antt =====
-- socket_prog/multi_client_epoll.cpp: one round of the loop of main. The set-up is in Calls; the
-- failure of epoll_wait, which ends the loop, is left out. The kernel's list of ready descriptors and what
-- accept and recv give are arguments; what goes to std::cout is left out.
use build_your_own_stuff.Prelude.{
  ℕ, Option, none, some, List, [], ◌∷◌, ◌≡◌, refl, ◌∙◌, arith, inl, inr, true, false, Bool-cases,
  ◌==◌, if◌then◌else◌,
}
use build_your_own_stuff.Echo.Sockets.{recv_from, SocketCall, send, close, Activity}
use build_your_own_stuff.Echo.Rounds.{answers}

-- What is done to the kernel: calls on a socket, O_NONBLOCK, EPOLL_CTL_ADD and EPOLL_CTL_DEL.
pub data EpollCall : Type 0 where
  on_socket : SocketCall → EpollCall
  make_socket_non_blocking : ℕ → EpollCall
  epoll_add : ℕ → EpollCall
  epoll_del : ℕ → EpollCall

unfoldable pub accept_calls : Option ℕ → List EpollCall → List EpollCall
accept_calls none rest = rest
accept_calls (some client_fd) rest = make_socket_non_blocking client_fd ∷ epoll_add client_fd ∷ rest

-- The loop over `events`.
unfoldable pub epoll_round : ℕ → Activity → List ℕ → List EpollCall
unfolding accept_calls
epoll_round server_fd a [] = []
epoll_round server_fd a (fd ∷ fds) =
    let rest = epoll_round server_fd a fds in
    if fd == server_fd then accept_calls a.accepted rest else (elim (recv_from a fd 1024) [
      | none ↦ on_socket (close fd) ∷ epoll_del fd ∷ rest
      | some bytes ↦ on_socket (send fd bytes) ∷ rest
    ])

unfoldable pub socket_calls : List EpollCall → List SocketCall
socket_calls [] = []
socket_calls (on_socket c ∷ cs) = c ∷ socket_calls cs
socket_calls (make_socket_non_blocking fd ∷ cs) = socket_calls cs
socket_calls (epoll_add fd ∷ cs) = socket_calls cs
socket_calls (epoll_del fd ∷ cs) = socket_calls cs

pub socket_calls-accept_calls :
    (o : Option ℕ) (cs : List EpollCall) → socket_calls (accept_calls o cs) ≡ socket_calls cs
unfolding socket_calls accept_calls
socket_calls-accept_calls none cs = refl
socket_calls-accept_calls (some fd) cs = refl

-- The calls that a round of epoll makes on sockets are the answers to the ready descriptors other
-- than the listening one, in the order of the events.
pub epoll_round-answers :
    (server_fd : ℕ) (a : Activity) (fds : List ℕ)
    → socket_calls (epoll_round server_fd a fds)
      ≡ answers (λ fd. if fd == server_fd then false else true) (λ fd. recv_from a fd 1024) fds
unfolding epoll_round socket_calls answers
epoll_round-answers server_fd a [] = refl
epoll_round-answers server_fd a (fd ∷ fds) = elim (Bool-cases (fd == server_fd)) [
  | inl e ↦
      rw (e, epoll_round)
        (socket_calls-accept_calls a.accepted _ ∙ epoll_round-answers server_fd a fds)
  | inr e ↦ ground (arith, e, epoll_round-answers server_fd a fds)
]
