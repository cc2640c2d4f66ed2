-- ===== src/Echo/Runs.antt =====
-- The servers of socket_prog/multi_client_select.cpp and multi_client_poll.cpp through any number of rounds.
use build_your_own_stuff.Prelude.{
  ℕ, ◌≤◌, ◌<◌, ◌≡◌, refl, ap, sym, ◌∙◌, Bool, true, false, length, Text, Option, none, some, List,
  [], ◌∷◌, ◌++◌, map, arith,
}
use build_your_own_stuff.Echo.Sockets.{
  take_short, SocketCall, received, recv_from, Activity, mem, keep,
}
use build_your_own_stuff.Echo.Select.{
  select_round, push_accepted, accept_client, all_settable, settable_round, fd_setsize,
}
use build_your_own_stuff.Echo.Poll.{Pollfd}
use build_your_own_stuff.Echo.Accepting.{IsFresh}
use build_your_own_stuff.Echo.Agreement.{poll_round-select_round, select_round-stay}
use build_your_own_stuff.Echo.Interest.{round-interests}
use build_your_own_stuff.Echo.Loops.{select_loop, poll_loop, round_then, before_calls}

-- No more waits than the smaller of the two buffers takes.
abbrev pub IsShort : Option Text → Type 0
IsShort none = 0 ≤ 0
IsShort (some bytes) = length bytes ≤ 1023

IsShort-received : (o : Option Text) → IsShort o → received 1023 o ≡ received 1024 o
IsShort-received none short = refl
IsShort-received (some bytes) short =
    ap some (take_short 1023 bytes short ∙ sym (take_short 1024 bytes (omega arith)))

-- What accept gives can be put in an fd_set.
abbrev pub IsSettable : Option ℕ → Type 0
IsSettable none = 0 ≤ 0
IsSettable (some new_fd) = new_fd < fd_setsize

-- In each round accept gives a descriptor from 1 to 1023 that nobody has, and on no descriptor more than
-- 1023 bytes wait.
abbrev pub AreFresh : ℕ → List Activity → List ℕ → Type 0
AreFresh listener [] clients = Unit {0}
AreFresh listener (a ∷ rounds) clients =
    IsFresh listener clients a
    × IsSettable a.accepted
    × ((fd : ℕ) → IsShort (a.waiting fd))
    × AreFresh listener rounds (select_round listener a clients).1

all_settable-append :
    (xs ys : List ℕ)
    → all_settable xs ≡ true
    → all_settable ys ≡ true
    → all_settable (xs ++ ys) ≡ true
unfolding all_settable
all_settable-append [] ys e f = f
all_settable-append (x ∷ xs) ys e f =
    ground (arith, e, all_settable-append xs ys (ground (arith, e)) f)

all_settable-keep :
    (test : ℕ → Bool) (xs : List ℕ) → all_settable xs ≡ true → all_settable (keep test xs) ≡ true
unfolding all_settable
all_settable-keep test [] e = refl
all_settable-keep test (x ∷ xs) e = ground (arith, e, all_settable-keep test xs (ground (arith, e)))

push_accepted-settable :
    (o : Option ℕ) (clients : List ℕ)
    → IsSettable o
    → all_settable clients ≡ true
    → all_settable (push_accepted o clients) ≡ true
unfolding push_accepted all_settable
push_accepted-settable none clients small e = e
push_accepted-settable (some fd) clients small e =
    all_settable-append clients (fd ∷ []) e (ground (arith, small))

accept_client-settable :
    (listener : ℕ) (a : Activity) (clients : List ℕ)
    → IsSettable a.accepted
    → all_settable clients ≡ true
    → all_settable (accept_client listener clients a) ≡ true
unfolding accept_client
accept_client-settable listener a clients small e =
    ground (arith, e, push_accepted-settable a.accepted clients small e)

select_round-settable :
    (listener : ℕ) (a : Activity) (clients : List ℕ)
    → IsSettable a.accepted
    → all_settable clients ≡ true
    → all_settable (select_round listener a clients).1 ≡ true
select_round-settable listener a clients small e =
    ap (λ round. all_settable round.1) (select_round-stay listener a clients)
    ∙ all_settable-keep _ (accept_client listener clients a)
        (accept_client-settable listener a clients small e)

settable_round-some :
    (listener : ℕ) (a : Activity) (clients : List ℕ)
    → IsSettable a.accepted
    → all_settable (listener ∷ clients) ≡ true
    → settable_round listener a clients ≡ some (select_round listener a clients)
unfolding settable_round
settable_round-some listener a clients small e =
    rw
      (
        e,
        accept_client-settable listener a clients small (unfold all_settable in ground (arith, e)),
      )
      refl

-- Through any rounds, under the same answers of the kernel in each, the poll server makes the calls of
-- the select server, in the same order, and ends with the same clients, and no access of the select server
-- leaves its fd_set: if the listening socket is no client, the entries of poll are that socket and the clients,
-- all of these are below FD_SETSIZE, in each round accept gives a descriptor above 0 and below FD_SETSIZE
-- that nobody has, and never more than 1023 bytes wait on a descriptor.
pub poll_loop-select_loop :
    (listener : ℕ) (rounds : List Activity) (clients : List ℕ) (fds : List Pollfd)
    → map (λ q. q.fd) fds ≡ listener ∷ clients
    → mem listener clients ≡ false
    → all_settable (listener ∷ clients) ≡ true
    → AreFresh listener rounds clients
    → (calls : List SocketCall) × (left : List ℕ) × (last : List Pollfd) × (select_loop listener
          rounds clients
        ≡ some (calls, left))
      × (poll_loop listener rounds fds ≡ some (calls, last))
      × (map (λ q. q.fd) last ≡ listener ∷ left)
unfolding poll_loop select_loop all_settable
poll_loop-select_loop listener [] clients fds e l small fresh = ([], clients, fds, refl, refl, e)
poll_loop-select_loop listener (a ∷ rounds) clients fds e l small fresh =
    let same : (fd : ℕ) → recv_from a fd 1023 ≡ recv_from a fd 1024 =
      λ fd. IsShort-received (a.waiting fd) (fresh.2 fd) in
    let one = poll_round-select_round listener a clients fds e l fresh.0 same in
    let absent = (round-interests listener a clients l fresh.0 same).1 in
    let round = select_round listener a clients in
    let later = select_round-settable listener a clients fresh.1 (ground (arith, small)) in
    let more =
      poll_loop-select_loop listener rounds round.1 one.0 one.2 absent
        (ground (arith, small, later)) fresh.3 in
    (
      round.0 ++ more.0,
      more.1,
      more.2,
      ap (round_then (select_loop listener rounds))
            (settable_round-some listener a clients fresh.1 small)
          ∙ ap (before_calls round.0) more.3,
      ap (round_then (poll_loop listener rounds)) one.1 ∙ ap (before_calls round.0) more.4,
      more.5,
    )
