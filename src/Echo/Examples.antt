-- ===== src/Echo/Examples.antt =====
-- Witnesses and tests for the echo servers of socket_prog.
use build_your_own_stuff.Prelude.{
  ℕ, ◌≡◌, refl, Bool, true, false, Option, none, some, List, [], ◌∷◌, ◌++◌, map, arith, Text, codes,
  ◌==◌, if◌then◌else◌,
}
use build_your_own_stuff.Echo.Sockets.{SocketCall, send, close, Activity}
use build_your_own_stuff.Echo.Select.{select_round, all_settable, settable_round}
use build_your_own_stuff.Echo.Poll.{Pollfd, watch}
use build_your_own_stuff.Echo.Threaded.{handle_client, handle_client-echoes}
use build_your_own_stuff.Echo.Loops.{select_loop, poll_loop}
use build_your_own_stuff.Echo.Runs.{AreFresh, IsShort, poll_loop-select_loop}

-- The listening socket is 3; client 5 has sent something, client 6 has left, and 7 connects.
abbrev waits : ℕ → Option Text
waits fd = if fd == 5 then some (codes "hi") else none

abbrev activity : Activity
activity = record { ready = λ fd. true; accepted = some 7; waiting = waits }

abbrev watched : List Pollfd
watched = map watch (3 ∷ 5 ∷ 6 ∷ [])

two_chunks :
    handle_client 5 (map some (codes "a" ∷ codes "b" ∷ []) ++ none ∷ [])
    ≡ map (send 5) (codes "a" ∷ codes "b" ∷ []) ++ close 5 ∷ []
two_chunks = handle_client-echoes 5 (codes "a" ∷ codes "b" ∷ []) []

select_test :
    select_round 3 activity (5 ∷ 6 ∷ []) ≡ (send 5 (codes "hi") ∷ close 6 ∷ [], 5 ∷ 7 ∷ [])
unfolding select_round
select_test = refl

-- In a second round nobody connects, and client 7 leaves.
abbrev departure : Activity
departure = record { ready = λ fd. fd == 7; accepted = none; waiting = λ fd. none }

abbrev two_rounds : List Activity
two_rounds = activity ∷ departure ∷ []

two_rounds-AreFresh : AreFresh 3 two_rounds (5 ∷ 6 ∷ [])
two_rounds-AreFresh = (
  λ new_fd e. (ground arith, ground arith),
  omega arith,
  λ fd. short (fd == 5),
  (λ new_fd e. cc, omega arith, λ fd. omega arith, tt),
)
  where
    short : (b : Bool) → IsShort (if b then some (codes "hi") else none)
    short true = omega arith
    short false = omega arith

poll_loop-select_loop_example :
    (calls : List SocketCall) × (left : List ℕ) × (last : List Pollfd) × (select_loop 3 two_rounds
        (5 ∷ 6 ∷ [])
      ≡ some (calls, left))
    × (poll_loop 3 two_rounds watched ≡ some (calls, last))
    × (map (λ q. q.fd) last ≡ 3 ∷ left)
unfolding all_settable
poll_loop-select_loop_example =
    poll_loop-select_loop 3 two_rounds (5 ∷ 6 ∷ []) watched refl refl refl two_rounds-AreFresh

loop_test :
    select_loop 3 two_rounds (5 ∷ 6 ∷ [])
    ≡ some (send 5 (codes "hi") ∷ close 6 ∷ close 7 ∷ [], 5 ∷ [])
unfolding select_loop settable_round all_settable select_round
loop_test = refl
