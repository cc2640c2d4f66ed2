-- ===== src/Echo/Agreement.antt =====
-- A round of socket_prog/multi_client_select.cpp and one of socket_prog/multi_client_poll.cpp under the
-- same answers of the kernel.
use build_your_own_stuff.Prelude.{
  ℕ, suc, ◌+◌, ◌≡◌, refl, ap, ap₂, fun_ext, sym, ◌∙◌, false, some, List, [], ◌∷◌, map, arith,
  length,
}
use build_your_own_stuff.Echo.Sockets.{recv_from, Activity, mem}
use build_your_own_stuff.Echo.Select.{is_set, accept_client, select_clients, select_round}
use build_your_own_stuff.Echo.Poll.{Pollfd, poll, after_calls, visit, poll_round}
use build_your_own_stuff.Echo.Rounds.{answers, stay, serve_clients-calls, remove_disconnected-stay}
use build_your_own_stuff.Echo.Visits.{entry, visit-step, visit-answers}
use build_your_own_stuff.Echo.Accepting.{IsFresh, IsAccepted, IsAccepted-cases, fd-entry}

poll-entry :
    (a : Activity) (fds : List Pollfd) → poll a fds ≡ map (entry a.ready) (map (λ q. q.fd) fds)
unfolding poll
poll-entry a [] = refl
poll-entry a (q ∷ fds) = ap (◌∷◌ (entry a.ready q.fd)) (poll-entry a fds)

length-fd : (fds : List Pollfd) → length (map (λ q. q.fd) fds) ≡ length fds
length-fd [] = refl
length-fd (q ∷ fds) = ap suc (length-fd fds)

pub select_round-stay :
    (listener : ℕ) (a : Activity) (clients : List ℕ)
    → select_round listener a clients ≡ (
      answers
          (is_set listener clients a)
          (λ fd. recv_from a fd 1023)
          (accept_client listener clients a),
      stay
          (is_set listener clients a)
          (λ fd. recv_from a fd 1023)
          (accept_client listener clients a),
    )
unfolding select_round select_clients
select_round-stay listener a clients =
    ap₂ (λ x y. (x, y)) (serve_clients-calls _ a _) (remove_disconnected-stay _ a _)

-- The part of a poll round behind the entry of the listening socket.
poll_round-rest :
    (listener : ℕ) (a : Activity) (clients all_clients : List ℕ) (fds : List Pollfd)
    → map (λ q. q.fd) fds ≡ listener ∷ clients
    → IsAccepted listener a clients all_clients
    → poll_round listener a fds
      ≡ some (
        answers (is_set listener clients a) (λ fd. recv_from a fd 1024) all_clients,
        entry a.ready listener
            ∷ map
                (entry (is_set listener clients a))
                (stay (is_set listener clients a) (λ fd. recv_from a fd 1024) all_clients),
      )
unfolding poll_round IsAccepted after_calls
poll_round-rest listener a clients all_clients fds e acc =
    let fuel : length fds + 2 ≡ suc (length clients + 2) =
      omega (arith, length-fd fds, ap length e) in
    ap₂ (λ fuel es. visit listener fuel a 0 es) fuel (poll-entry a fds ∙ ap (map (entry a.ready)) e)
    ∙ visit-step listener (length clients + 2) a [] (entry a.ready listener) _ _ _ _ acc.3
    ∙ ap (after_calls []) (
        visit-answers listener (length clients + 2) a (is_set listener clients a)
          (entry a.ready listener ∷ []) all_clients (omega (arith, acc.1)) acc.2)

-- Under the same answers of the kernel the two servers make the same calls, in the same order, and
-- keep the same clients: if the entries of poll are the listening socket and the clients of select,
-- accept gives a descriptor above 0 that nobody has, and recv gives the same for the capacities of
-- the two buffers.
pub poll_round-select_round :
    (listener : ℕ) (a : Activity) (clients : List ℕ) (fds : List Pollfd)
    → map (λ q. q.fd) fds ≡ listener ∷ clients
    → mem listener clients ≡ false
    → IsFresh listener clients a
    → ((fd : ℕ) → recv_from a fd 1023 ≡ recv_from a fd 1024)
    → (next : List Pollfd) × (poll_round listener a fds
        ≡ some ((select_round listener a clients).0, next))
      × (map (λ q. q.fd) next ≡ listener ∷ (select_round listener a clients).1)
unfolding IsAccepted
poll_round-select_round listener a clients fds e l fresh same =
    let (all_clients, acc) = IsAccepted-cases listener a clients l fresh in
    let test = is_set listener clients a in
    let round : select_round listener a clients ≡ (
      answers test (λ fd. recv_from a fd 1024) all_clients,
      stay test (λ fd. recv_from a fd 1024) all_clients,
    ) =
      select_round-stay listener a clients
      ∙ ap₂ (λ recv fds. (answers test recv fds, stay test recv fds)) (fun_ext same) acc.0 in
    (
      entry a.ready listener ∷ map (entry test) (stay test (λ fd. recv_from a fd 1024) all_clients),
      poll_round-rest listener a clients all_clients fds e acc
          ∙ ap
              (λ r. some (
                r.0,
                entry a.ready listener
                    ∷ map (entry test) (stay test (λ fd. recv_from a fd 1024) all_clients),
              ))
              (sym round),
      ap (◌∷◌ listener) (fd-entry test _ ∙ ap (λ r. r.1) (sym round)),
    )
