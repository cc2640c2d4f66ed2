-- ===== src/MultiClient/Schedule.antt =====
-- Rounds of several clients, one whole round after another, and what holds throughout:
-- cpp/socket_programming/multi_client_server/server.cpp. What the threads of main do inside the rounds of
-- each other is left to MultiClient/Race.
use build_your_own_stuff.Prelude.{
  subst, sym, ℕ, ◌≡◌, refl, Bool-cases, Option-cases, inl, inr, Option, none, some, List, [], ◌∷◌,
  ◌++◌, arith, length, Text, codes, ltb,
}
use build_your_own_stuff.MultiClient.NameMap.{
  IsAscending, assign-IsAscending, erase_value-IsAscending,
}
use build_your_own_stuff.MultiClient.Buffer.{receive_body-if}
use build_your_own_stuff.MultiClient.Server.{
  handle_message, Server, EventType, login, direct, broadcast, logout, online_users, invalid,
  send_message_to_client, broadcast_loop, broadcast_message, handle_login_client,
  handle_logout_client, handle_online_users, name_lines, direct_to, handle_direct_message, c_string,
  split_event, event_type, dispatch, Round, Outcome, continues, returns, overflows, receive_body,
  handle_round,
}

-- Rounds of the threads, one whole round after another; a thread that returns leaves the others running, and
-- an overflow ends what can be said.
unfoldable pub serve : List (ℕ × Round) → Server → Outcome
serve [] s = continues s
serve ((fd, r) ∷ rest) s = elim (handle_round r fd s) [
  | continues s' ↦ serve rest s'
  | returns s' ↦ serve rest s'
  | overflows ↦ overflows
]

-- A statement about the state that an outcome leaves.
abbrev pub After : (Server → Type 0) → Outcome → Type 0
After P (continues s) = P s
After P (returns s) = P s
After P overflows = Unit

handle_round-none :
    (r : Round) (fd : ℕ) (s : Server)
    → r.header ≡ none
    → handle_round r fd s ≡ returns (handle_logout_client fd s)
unfolding handle_round
handle_round-none r fd s e = ground arith

handle_round-some :
    (x : Text) (r : Round) (fd : ℕ) (s : Server)
    → r.header ≡ some x
    → handle_round r fd s ≡ receive_body r.body fd s
unfolding handle_round
handle_round-some x r fd s e = ground arith

-- The rule for whatever each handler keeps.
module _ (P : Server → Type 0) (fd : ℕ)
    (on_send : (message : Text) (s : Server) → P s → P (send_message_to_client fd message s))
    (on_login : (name : Text) (s : Server) → P s → P (handle_login_client name fd s))
    (on_direct : (rest : Text) (s : Server) → P s → P (handle_direct_message rest fd s))
    (on_broadcast : (message : Text) (s : Server) → P s → P (broadcast_message message fd s))
    (on_logout : (s : Server) → P s → P (handle_logout_client fd s)) where
  dispatch-After : (t : EventType) (rest : Text) (s : Server) → P s → After P (dispatch t rest fd s)
  unfolding dispatch handle_online_users
  dispatch-After login rest s h = on_login rest s h
  dispatch-After direct rest s h = on_direct rest s h
  dispatch-After broadcast rest s h = on_broadcast rest s h
  dispatch-After logout rest s h = on_logout s h
  dispatch-After online_users rest s h =
      on_send (codes "Online Users:" ++ 10 ∷ name_lines s.client_mapp) s h
  dispatch-After invalid rest s h = on_send (codes "Error: Invalid event type.") s h

  receive_body-After : (b : Option Text) (s : Server) → P s → After P (receive_body b fd s)
  unfolding receive_body handle_message dispatch
  receive_body-After none s h = on_logout s h
  receive_body-After (some bytes) s h =
      subst (After P) (sym (receive_body-if bytes fd s))
        (elim (Bool-cases (ltb (length bytes) 1024)) [
          | inl fits ↦ rw fits (
              dispatch-After (event_type (split_event (c_string bytes)).0)
                (split_event (c_string bytes)).1 s h)
          | inr big ↦ rw big tt
        ])

  pub handle_round-After : (r : Round) (s : Server) → P s → After P (handle_round r fd s)
  handle_round-After r s h = elim (Option-cases r.header) [
    | inl e ↦ rw (handle_round-none r fd s e) (on_logout s h)
    | inr (x, e) ↦ rw (handle_round-some x r fd s e) (receive_body-After r.body s h)
  ]

-- The clients whose rounds a schedule holds.
abbrev pub AllClients : (ℕ → Type 0) → List (ℕ × Round) → Type 0
AllClients Q [] = Unit {0}
AllClients Q ((fd, r) ∷ rest) = Q fd × AllClients Q rest

module _ (P : Server → Type 0) (Q : ℕ → Type 0)
    (keep : (fd : ℕ) (r : Round) (s : Server) → Q fd → P s → After P (handle_round r fd s)) where
  serve_next :
      (o : Outcome) (rest : List (ℕ × Round))
      → ((s : Server) → P s → After P (serve rest s))
      → After P o
      → After P (elim o [
        | continues s' ↦ serve rest s'
        | returns s' ↦ serve rest s'
        | overflows ↦ overflows
      ])
  serve_next (continues s) rest ih h = ih s h
  serve_next (returns s) rest ih h = ih s h
  serve_next overflows rest ih h = tt

  pub serve-After :
      (schedule : List (ℕ × Round)) (s : Server)
      → AllClients Q schedule
      → P s
      → After P (serve schedule s)
  unfolding serve
  serve-After [] s a h = h
  serve-After ((fd, r) ∷ rest) s a h =
      serve_next (handle_round r fd s) rest (λ s' h'. serve-After rest s' a.1 h')
        (keep fd r s a.0 h)

-- Logins and logouts keep the names in ascending order, each once.
abbrev pub IsOrdered : Server → Type 0
IsOrdered s = IsAscending s.client_mapp

pub names-send :
    (to : ℕ) (message : Text) (s : Server)
    → (send_message_to_client to message s).client_mapp ≡ s.client_mapp
unfolding send_message_to_client
names-send to message s = refl

names-broadcast_loop :
    (message : Text) (sender : ℕ) (cs : List ℕ) (s : Server)
    → (broadcast_loop message sender cs s).client_mapp ≡ s.client_mapp
unfolding broadcast_loop
names-broadcast_loop message sender [] s = refl
names-broadcast_loop message sender (c ∷ cs) s =
    let text = codes "Broadcast: " ++ message in
    ground (
      arith,
      names-broadcast_loop message sender cs s,
      names-broadcast_loop message sender cs (send_message_to_client c text s),
      names-send c text s,
    )

pub names-broadcast :
    (message : Text) (sender : ℕ) (s : Server)
    → (broadcast_message message sender s).client_mapp ≡ s.client_mapp
unfolding broadcast_message
names-broadcast message sender s = names-broadcast_loop message sender s.clients s

pub names-direct :
    (rest : Text) (sender : ℕ) (s : Server)
    → (handle_direct_message rest sender s).client_mapp ≡ s.client_mapp
unfolding handle_direct_message direct_to
names-direct rest sender s = ground arith

handle_round-IsOrdered :
    (fd : ℕ) (r : Round) (s : Server)
    → Unit {0}
    → IsOrdered s
    → After IsOrdered (handle_round r fd s)
handle_round-IsOrdered fd r s u =
    handle_round-After IsOrdered fd (λ message s h. rw (names-send fd message s) h)
      (λ name s h. unfold handle_login_client in (assign-IsAscending name fd s.client_mapp h))
      (λ rest s h. rw (names-direct rest fd s) h)
      (λ message s h. rw (names-broadcast message fd s) h)
      (λ s h. unfold handle_logout_client in (erase_value-IsAscending fd s.client_mapp h)) r s

every_client : (schedule : List (ℕ × Round)) → AllClients (λ _. Unit {0}) schedule
every_client [] = tt
every_client ((fd, r) ∷ rest) = (tt, every_client rest)

-- In whatever order the rounds of the clients run, one whole round after another, a list of online
-- users that is sorted by name, with no name in it twice, stays so; of a run in which a buffer
-- overflows nothing is said.
pub serve-IsOrdered :
    (schedule : List (ℕ × Round)) (s : Server) → IsOrdered s → After IsOrdered (serve schedule s)
serve-IsOrdered schedule s =
    serve-After IsOrdered (λ _. Unit {0}) handle_round-IsOrdered schedule s (every_client schedule)
