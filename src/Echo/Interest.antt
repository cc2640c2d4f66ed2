-- ===== src/Echo/Interest.antt =====
-- The interest list of the kernel behind a round of socket_prog/multi_client_epoll.cpp.
use build_your_own_stuff.Prelude.{
  ℕ, ◌≡◌, refl, ap, sym, ◌∙◌, Bool, true, false, not, ◌&&◌, Bool-cases, Option-cases, inl, inr,
  Option, none, some, List, [], ◌∷◌, arith, Text, ◌==◌, ==_iff, if◌then◌else◌,
}
use build_your_own_stuff.Echo.Sockets.{
  recv_from, Activity, mem, keep, keep-cong, keep-keep, mem-keep, mem-append,
}
use build_your_own_stuff.Echo.Select.{is_set, push_accepted, accept_client, select_round}
use build_your_own_stuff.Echo.Epoll.{EpollCall, accept_calls, epoll_round}
use build_your_own_stuff.Echo.Rounds.{keep-all, is_gone, stay}
use build_your_own_stuff.Echo.Agreement.{select_round-stay}
use build_your_own_stuff.Echo.Accepting.{IsFresh, accept-quiet}
use build_your_own_stuff.Echo.Loops.{interests}

abbrev fails : Option Text → Bool
fails none = true
fails (some bytes) = false

-- A descriptor is closed by a round when its event is there and recv fails.
abbrev is_closed : Activity → List ℕ → ℕ → Bool
is_closed a fds x = mem x fds && fails (recv_from a x 1024)

recv-same :
    (a : Activity) (fd x : ℕ)
    → (x == fd) ≡ true
    → fails (recv_from a x 1024) ≡ fails (recv_from a fd 1024)
recv-same a fd x e = ap (λ y. fails (recv_from a y 1024)) ((==_iff x fd).0 e)

-- The events of clients only take away the clients that are closed.
interests-clients :
    (server_fd : ℕ) (a : Activity) (fds xs : List ℕ)
    → mem server_fd fds ≡ false
    → interests (epoll_round server_fd a fds) xs ≡ keep (λ x. not (is_closed a fds x)) xs
unfolding epoll_round
interests-clients server_fd a [] xs h = sym (keep-all xs)
interests-clients server_fd a (fd ∷ fds) xs h =
    let other : (fd == server_fd) ≡ false = ground arith in
    let others : mem server_fd fds ≡ false = ground arith in
    elim (Option-cases (recv_from a fd 1024)) [
      | inl e ↦
          let gone = ap fails e in
          rw (other, e)
            (interests-clients server_fd a fds _ others
              ∙ keep-keep _ _ (keep (λ x. not (x == fd)) xs)
              ∙ keep-keep _ _ xs
              ∙ keep-cong (λ x. (not (is_closed a fds x) && not (x == fd)) && not (x == fd)) _ xs
                  (λ x m. ground (arith, recv-same a fd x, gone)))
      | inr (bytes, e) ↦
          let there = ap fails e in
          rw (other, e)
            (interests-clients server_fd a fds _ others
              ∙ keep-cong _ _ xs (λ x m. ground (arith, recv-same a fd x, there)))
    ]

differ : (y x : ℕ) (xs : List ℕ) → mem y xs ≡ false → mem x xs ≡ true → (x == y) ≡ false
differ y x xs h m = elim (Bool-cases (x == y)) [
  | inl e ↦ absurd (ground (arith, sym m ∙ ap (λ z. mem z xs) ((==_iff x y).0 e) ∙ h))
  | inr e ↦ e
]

-- Taking away the clients that are closed leaves the listening socket and the clients that stay.
closed-stay :
    (server_fd : ℕ) (a : Activity) (clients all_clients : List ℕ)
    → mem server_fd clients ≡ false
    → mem server_fd all_clients ≡ false
    → ((fd : ℕ) → recv_from a fd 1023 ≡ recv_from a fd 1024)
    → keep (λ x. not (is_closed a (keep a.ready clients) x)) (server_fd ∷ all_clients)
      ≡ server_fd ∷ stay (is_set server_fd clients a) (λ fd. recv_from a fd 1023) all_clients
unfolding is_gone is_set
closed-stay server_fd a clients all_clients l l' same =
    let open_server : is_closed a (keep a.ready clients) server_fd ≡ false =
      ground (arith, mem-keep a.ready server_fd clients) in
    rw open_server (
      ap (◌∷◌ server_fd) (
        keep-cong _ _ all_clients (λ x m. ground (
          arith,
          mem-keep a.ready x clients,
          differ server_fd x all_clients l' m,
          ap fails (same x),
        ))))

interests-accept_calls :
    (o : Option ℕ) (cs : List EpollCall) (fds : List ℕ)
    → interests (accept_calls o cs) fds ≡ interests cs (push_accepted o fds)
unfolding accept_calls push_accepted
interests-accept_calls none cs fds = refl
interests-accept_calls (some fd) cs fds = refl

push_accepted-cons :
    (o : Option ℕ) (fd : ℕ) (fds : List ℕ) → push_accepted o (fd ∷ fds) ≡ fd ∷ push_accepted o fds
unfolding push_accepted
push_accepted-cons none fd fds = refl
push_accepted-cons (some new_fd) fd fds = refl

push_accepted-absent :
    (o : Option ℕ) (fd : ℕ) (fds : List ℕ)
    → mem fd fds ≡ false
    → ((new_fd : ℕ) → o ≡ some new_fd → (new_fd == fd) ≡ false)
    → mem fd (push_accepted o fds) ≡ false
unfolding push_accepted
push_accepted-absent none fd fds h new = h
push_accepted-absent (some new_fd) fd fds h new =
    ground (arith, mem-append fd fds (new_fd ∷ []), new new_fd refl)

epoll_round-listener :
    (server_fd : ℕ) (a : Activity) (fds : List ℕ)
    → epoll_round server_fd a (server_fd ∷ fds)
      ≡ accept_calls a.accepted (epoll_round server_fd a fds)
unfolding epoll_round
epoll_round-listener server_fd a fds =
    let self : (server_fd == server_fd) ≡ true = ground arith in rw self refl

accept-input :
    (server_fd : ℕ) (a : Activity) (clients : List ℕ)
    → a.ready server_fd ≡ true
    → accept_client server_fd clients a ≡ push_accepted a.accepted clients
unfolding accept_client is_set
accept-input server_fd a clients h = ground (arith, h)

-- A round whose events are those of the clients, behind what was accepted.
round-interests-rest :
    (server_fd : ℕ) (a : Activity) (clients all_clients : List ℕ) {fds : List ℕ}
    → mem server_fd clients ≡ false
    → mem server_fd all_clients ≡ false
    → ((fd : ℕ) → recv_from a fd 1023 ≡ recv_from a fd 1024)
    → fds ≡ interests (epoll_round server_fd a (keep a.ready clients)) (server_fd ∷ all_clients)
    → accept_client server_fd clients a ≡ all_clients
    → (fds ≡ server_fd ∷ (select_round server_fd a clients).1)
      × (mem server_fd (select_round server_fd a clients).1 ≡ false)
round-interests-rest server_fd a clients all_clients l l' same e accepted =
    let kept : (select_round server_fd a clients).1
        ≡ stay (is_set server_fd clients a) (λ fd. recv_from a fd 1023) all_clients =
      ap (λ r. r.1) (select_round-stay server_fd a clients)
      ∙ ap (stay (is_set server_fd clients a) (λ fd. recv_from a fd 1023)) accepted in
    (
      e
          ∙ interests-clients server_fd a (keep a.ready clients) (server_fd ∷ all_clients)
              (ground (arith, mem-keep a.ready server_fd clients))
          ∙ closed-stay server_fd a clients all_clients l l' same
          ∙ ap (◌∷◌ server_fd) (sym kept),
      ap (mem server_fd) kept ∙ mem-keep _ server_fd all_clients ∙ ground (arith, l'),
    )

-- Behind a round whose events are all that are ready, in the order of the interest list, that is the
-- listening socket and the clients that a round of select keeps.
pub round-interests :
    (server_fd : ℕ) (a : Activity) (clients : List ℕ)
    → mem server_fd clients ≡ false
    → IsFresh server_fd clients a
    → ((fd : ℕ) → recv_from a fd 1023 ≡ recv_from a fd 1024)
    → (interests
          (epoll_round server_fd a (keep a.ready (server_fd ∷ clients)))
          (server_fd ∷ clients)
        ≡ server_fd ∷ (select_round server_fd a clients).1)
      × (mem server_fd (select_round server_fd a clients).1 ≡ false)
round-interests server_fd a clients l fresh same = elim (Bool-cases (a.ready server_fd)) [
  | inr quiet ↦
      round-interests-rest server_fd a clients clients l l same
        (ap
          (λ b.
            interests
              (epoll_round server_fd a
                (if b then server_fd ∷ keep a.ready clients else keep a.ready clients))
              (server_fd ∷ clients))
          quiet)
        (accept-quiet server_fd a clients quiet)
  | inl input ↦
      round-interests-rest server_fd a clients (push_accepted a.accepted clients) l
        (push_accepted-absent a.accepted server_fd clients l (λ n e. ground (arith, (fresh n e).1)))
        same
        (ap
            (λ b.
              interests
                (epoll_round server_fd a
                  (if b then server_fd ∷ keep a.ready clients else keep a.ready clients))
                (server_fd ∷ clients))
            input
          ∙ ap (λ cs. interests cs (server_fd ∷ clients))
              (epoll_round-listener server_fd a (keep a.ready clients))
          ∙ interests-accept_calls a.accepted (epoll_round server_fd a (keep a.ready clients))
              (server_fd ∷ clients)
          ∙ ap (interests (epoll_round server_fd a (keep a.ready clients)))
              (push_accepted-cons a.accepted server_fd clients))
        (accept-input server_fd a clients input)
]
