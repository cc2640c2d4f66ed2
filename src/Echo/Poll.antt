-- ===== src/Echo/Poll.antt =====
-- socket_prog/multi_client_poll.cpp: one round of the loop of main. Setting up the listening socket is
-- left out, and so is the failure of poll itself, which ends the loop.
use build_your_own_stuff.Prelude.{
  ℕ, zero, suc, ◌+◌, ltb, Bool, false, Option, none, some, List, [], ◌∷◌, ◌++◌, map, take, drop,
  length, get_elem?, ◌==◌, if◌then◌else◌,
}
use build_your_own_stuff.Echo.Sockets.{recv_from, SocketCall, send, close, Activity}

-- struct pollfd, with POLLIN of `revents`; `events` is POLLIN in each of them.
pub record Pollfd : Type 0 where
  pub fd : ℕ
  pub revents : Bool

abbrev pub watch : ℕ → Pollfd
watch fd = record { fd = fd; revents = false }

-- poll() sets `revents` of every entry.
unfoldable pub poll : Activity → List Pollfd → List Pollfd
poll a fds = map (λ p. record { fd = p.fd; revents = a.ready p.fd }) fds

-- fds.erase(fds.begin() + i)
unfoldable pub erase_at : ℕ → List Pollfd → List Pollfd
erase_at i fds = take i fds ++ drop (suc i) fds

-- fds.push_back where accept gives a descriptor above 0
unfoldable pub push_pollfd : Option ℕ → List Pollfd → List Pollfd
push_pollfd none fds = fds
push_pollfd (some client_fd) fds = if ltb 0 client_fd then fds ++ watch client_fd ∷ [] else fds

-- The body of the loop for the entry at `i`: the calls it makes, the index of the next pass, and the
-- entries. Where an entry is erased, `i--` and `++i` leave `i` as it is.
unfoldable pub pass : ℕ → Activity → ℕ → List Pollfd → Pollfd → List SocketCall × ℕ × List Pollfd
unfolding push_pollfd erase_at
pass listener a i fds p =
    if p.revents
    then (if p.fd == listener
        then ([], suc i, push_pollfd a.accepted fds)
        else (elim (recv_from a p.fd 1024) [
          | none ↦ (close p.fd ∷ [], i, erase_at i fds)
          | some bytes ↦ (send p.fd bytes ∷ [], suc i, fds)
        ]))
    else ([], suc i, fds)

unfoldable pub after_calls :
    List SocketCall
    → Option (List SocketCall × List Pollfd)
    → Option (List SocketCall × List Pollfd)
after_calls calls none = none
after_calls calls (some result) = some (calls ++ result.0, result.1)

-- The loop `for (size_t i = 0; i < fds.size(); ++i)` from `i` on. Each pass is one unit of fuel;
-- `none` is that there was too little.
unfoldable pub visit : ℕ → ℕ → Activity → ℕ → List Pollfd → Option (List SocketCall × List Pollfd)
unfolding pass after_calls
visit listener zero a i fds = none
visit listener (suc fuel) a i fds = elim (get_elem? fds i) [
  | none ↦ some ([], fds)
  | some p ↦
      let next = pass listener a i fds p in after_calls next.0 (visit listener fuel a next.1 next.2)
]

-- A round. There is one pass for each entry, one for an accepted client, and the last.
unfoldable pub poll_round : ℕ → Activity → List Pollfd → Option (List SocketCall × List Pollfd)
unfolding visit poll
poll_round listener a fds = visit listener (length fds + 2) a 0 (poll a fds)
