-- ===== src/Echo/EpollAgreement.antt =====
-- A round of socket_prog/multi_client_epoll.cpp and one of socket_prog/multi_client_select.cpp under
-- the same answers of the kernel.
use build_your_own_stuff.Prelude.{
  ℕ, ◌≡◌, refl, ap, fun_ext, sym, ◌∙◌, Bool, true, false, Bool-cases, inl, inr, Option, List, [],
  ◌∷◌, ◌++◌, arith, Text, ◌==◌, if◌then◌else◌,
}
use build_your_own_stuff.Echo.Sockets.{recv_from, Activity, mem, keep}
use build_your_own_stuff.Echo.Select.{is_set, accept_client, select_round, select_clients}
use build_your_own_stuff.Echo.Epoll.{epoll_round, socket_calls, epoll_round-answers}
use build_your_own_stuff.Echo.Rounds.{answers, serve_clients-calls}
use build_your_own_stuff.Echo.Accepting.{IsFresh, accept_client-cases}

abbrev is_client : ℕ → ℕ → Bool
is_client server_fd fd = if fd == server_fd then false else true

-- Leaving out the descriptors with no input leaves the answers as they are.
answers-keep :
    (server_fd : ℕ) (test : ℕ → Bool) (recv : ℕ → Option Text) (fds : List ℕ)
    → mem server_fd fds ≡ false
    → answers (is_client server_fd) recv (keep test fds) ≡ answers test recv fds
unfolding answers
answers-keep server_fd test recv [] h = refl
answers-keep server_fd test recv (fd ∷ fds) h =
    let other : (fd == server_fd) ≡ false = ground arith in
    let rest = answers-keep server_fd test recv fds (ground arith) in
    elim (Bool-cases (test fd)) [
      | inl input ↦ ground (arith, rest, other, input)
      | inr quiet ↦ ground (arith, rest, other, quiet)
    ]

answers-server :
    (server_fd : ℕ) (test : ℕ → Bool) (recv : ℕ → Option Text) (fds : List ℕ)
    → answers (is_client server_fd) recv (keep test (server_fd ∷ fds))
      ≡ answers (is_client server_fd) recv (keep test fds)
unfolding answers
answers-server server_fd test recv fds = elim (Bool-cases (test server_fd)) [
  | inl input ↦ ground (arith, input)
  | inr quiet ↦ ground (arith, quiet)
]

answers-quiet_end :
    (test : ℕ → Bool) (recv : ℕ → Option Text) (fds : List ℕ) (new_fd : ℕ)
    → test new_fd ≡ false
    → answers test recv (fds ++ new_fd ∷ []) ≡ answers test recv fds
unfolding answers
answers-quiet_end test recv [] new_fd h = ground (arith, h)
answers-quiet_end test recv (fd ∷ fds) new_fd h =
    ground (arith, answers-quiet_end test recv fds new_fd h)

select_round-answers :
    (listener : ℕ) (a : Activity) (clients : List ℕ)
    → IsFresh listener clients a
    → (select_round listener a clients).0
      ≡ answers (is_set listener clients a) (λ fd. recv_from a fd 1023) clients
unfolding select_round select_clients
select_round-answers listener a clients fresh =
    let test = is_set listener clients a in
    let recv : ℕ → Option Text = λ fd. recv_from a fd 1023 in
    serve_clients-calls test a (accept_client listener clients a)
    ∙ (elim (accept_client-cases listener a clients fresh) [
      | inl none_new ↦ ap (answers test recv) none_new
      | inr (new_fd, one_new, quiet) ↦
          ap (answers test recv) one_new ∙ answers-quiet_end test recv clients new_fd quiet
    ])

-- Under the same answers of the kernel, where the events are the descriptors that select finds with
-- input, in its order, the epoll server makes the same calls on sockets as the select server: if the
-- listening socket is no client, accept gives a descriptor above 0 that nobody has, and recv gives the
-- same for the capacities of the two buffers.
pub epoll_round-select_round :
    (listener : ℕ) (a : Activity) (clients : List ℕ)
    → mem listener clients ≡ false
    → IsFresh listener clients a
    → ((fd : ℕ) → recv_from a fd 1023 ≡ recv_from a fd 1024)
    → socket_calls (epoll_round listener a (keep (is_set listener clients a) (listener ∷ clients)))
      ≡ (select_round listener a clients).0
epoll_round-select_round listener a clients l fresh same =
    let test = is_set listener clients a in
    let recv : ℕ → Option Text = λ fd. recv_from a fd 1024 in
    epoll_round-answers listener a (keep test (listener ∷ clients))
    ∙ answers-server listener test recv clients
    ∙ answers-keep listener test recv clients l
    ∙ ap (λ r. answers test r clients) (sym (fun_ext same))
    ∙ sym (select_round-answers listener a clients fresh)
