-- ===== src/Echo/Select.antt =====
-- socket_prog/multi_client_select.cpp: one round of the loop of main. Setting up the listening socket
-- is in Calls; the failure of select itself, which ends the loop, is left out.
use build_your_own_stuff.Prelude.{
  ℕ, Bool, true, ltb, not, ◌&&◌, Option, none, some, List, [], ◌∷◌, ◌++◌, ◌==◌, if◌then◌else◌,
}
use build_your_own_stuff.Echo.Sockets.{recv_from, SocketCall, send, close, Activity, mem, keep}

-- FD_ISSET behind select, for descriptors below FD_SETSIZE: a descriptor stays in read_fds if it was set and
-- has input.
unfoldable pub is_set : ℕ → List ℕ → Activity → ℕ → Bool
is_set listener clients a fd = mem fd (listener ∷ clients) && a.ready fd

-- clients.push_back(new_fd) where accept gives one
unfoldable pub push_accepted : Option ℕ → List ℕ → List ℕ
push_accepted none clients = clients
push_accepted (some new_fd) clients = clients ++ new_fd ∷ []

unfoldable pub accept_client : ℕ → List ℕ → Activity → List ℕ
unfolding is_set push_accepted
accept_client listener clients a =
    if is_set listener clients a listener then push_accepted a.accepted clients else clients

-- The loop over the clients: the calls it makes and the list `disconnected`.
unfoldable pub serve_clients : (ℕ → Bool) → Activity → List ℕ → List SocketCall × List ℕ
serve_clients in_set a [] = ([], [])
serve_clients in_set a (fd ∷ fds) =
    let rest = serve_clients in_set a fds in
    if in_set fd
    then (elim (recv_from a fd 1023) [
      | none ↦ (close fd ∷ rest.0, fd ∷ rest.1)
      | some bytes ↦ (send fd bytes ∷ rest.0, rest.1)
    ])
    else rest

-- clients.erase(std::remove(...)) for each of `disconnected`
unfoldable pub remove_disconnected : List ℕ → List ℕ → List ℕ
remove_disconnected [] clients = clients
remove_disconnected (fd ∷ fds) clients = remove_disconnected fds (keep (λ x. not (x == fd)) clients)

unfoldable pub select_clients : ℕ → List ℕ → Activity → List ℕ → List SocketCall × List ℕ
unfolding serve_clients remove_disconnected
select_clients listener clients a all_clients =
    let served = serve_clients (is_set listener clients a) a all_clients in
    (served.0, remove_disconnected served.1 all_clients)

-- A round: the calls in their order, and the clients of the next round.
unfoldable pub select_round : ℕ → Activity → List ℕ → List SocketCall × List ℕ
unfolding accept_client select_clients
select_round listener a clients =
    select_clients listener clients a (accept_client listener clients a)

abbrev pub fd_setsize : ℕ
fd_setsize = 1024

-- FD_SET and FD_ISSET are defined on these descriptors.
unfoldable pub all_settable : List ℕ → Bool
all_settable [] = true
all_settable (fd ∷ fds) = let rest = all_settable fds in ltb fd fd_setsize && rest

-- A round as far as it is defined: `none` is an access behind the end of read_fds.
unfoldable pub settable_round : ℕ → Activity → List ℕ → Option (List SocketCall × List ℕ)
settable_round listener a clients =
    if all_settable (listener ∷ clients) && all_settable (accept_client listener clients a)
    then some (select_round listener a clients)
    else none
