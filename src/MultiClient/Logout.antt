-- ===== src/MultiClient/Logout.antt =====
-- After handleLogoutClient of cpp/socket_programming/multi_client_server/server.cpp a socket gets
-- nothing more from whole rounds of the other clients.
use build_your_own_stuff.Prelude.{
  ℕ, suc, ◌≡◌, ◌≢◌, refl, ap, sym, ◌∙◌, Option-cases, inl, inr, Option, none, some, List, [], ◌∷◌,
  ◌++◌, append-nil, arith, take, drop, Text, codes, find, ◌==◌, if◌then◌else◌,
}
use build_your_own_stuff.MultiClient.NameMap.{
  NameMap, lookup, assign, erase_value, lookup-assign, lookup-erase_value, IsAscending,
  assign-IsAscending, erase_value-IsAscending,
}
use build_your_own_stuff.MultiClient.Wire.{close, frame, stream, stream-append_close}
use build_your_own_stuff.MultiClient.Streams.{
  sent_to, stream-send_message, count, copies, stream-broadcast_message,
}
use build_your_own_stuff.MultiClient.Server.{
  Server, colon, send_message_to_client, broadcast_loop, broadcast_message, handle_login_client,
  handle_logout_client, remove_client, direct_to, handle_direct_message, Round, handle_round,
}
use build_your_own_stuff.MultiClient.Schedule.{
  serve, After, handle_round-After, serve-After, AllClients, IsOrdered, names-send, names-broadcast,
}

-- The socket is in no table, and has got `bytes` so far.
pub record Quiet (fd : ℕ) (bytes : Text) (s : Server) : Type 0 where
  pub ordered : IsOrdered s
  pub names : (k : Text) → lookup k s.client_mapp ≢ some fd
  pub clients : count fd s.clients ≡ 0
  pub silent : stream fd s.actions ≡ bytes

clients-send :
    (to : ℕ) (message : Text) (s : Server)
    → (send_message_to_client to message s).clients ≡ s.clients
unfolding send_message_to_client
clients-send to message s = refl

clients-broadcast_loop :
    (message : Text) (sender : ℕ) (cs : List ℕ) (s : Server)
    → (broadcast_loop message sender cs s).clients ≡ s.clients
unfolding broadcast_loop
clients-broadcast_loop message sender [] s = refl
clients-broadcast_loop message sender (c ∷ cs) s =
    let text = codes "Broadcast: " ++ message in
    ground (
      arith,
      clients-broadcast_loop message sender cs s,
      clients-broadcast_loop message sender cs (send_message_to_client c text s),
      clients-send c text s,
    )

pub clients-broadcast :
    (message : Text) (sender : ℕ) (s : Server)
    → (broadcast_message message sender s).clients ≡ s.clients
unfolding broadcast_message
clients-broadcast message sender s = clients-broadcast_loop message sender s.clients s

count-remove_self : (fd : ℕ) (cs : List ℕ) → count fd (remove_client fd cs) ≡ 0
unfolding count remove_client
count-remove_self fd [] = refl
count-remove_self fd (c ∷ cs) = ground (arith, count-remove_self fd cs)

count-remove_ne :
    (fd other : ℕ) (cs : List ℕ) → fd ≢ other → count fd (remove_client other cs) ≡ count fd cs
unfolding count remove_client
count-remove_ne fd other [] h = refl
count-remove_ne fd other (c ∷ cs) h = ground (arith, count-remove_ne fd other cs h)

names-erase_self :
    (fd : ℕ) (m : NameMap ℕ) (k : Text) → IsAscending m → lookup k (erase_value fd m) ≢ some fd
names-erase_self fd m k a e = ground (arith, lookup-erase_value fd k m a)

module _ (fd : ℕ) (bytes : Text) where
  send-Quiet :
      (to : ℕ) (message : Text) (s : Server)
      → to ≢ fd
      → Quiet fd bytes s
      → Quiet fd bytes (send_message_to_client to message s)
  send-Quiet to message s ne q = record {
    ordered = rw names-send q.ordered;
    names = λ k. rw names-send (q.names k);
    clients = rw clients-send q.clients;
    silent =
        stream-send_message fd to message s
        ∙ ap (λ t. stream fd s.actions ++ t) nothing
        ∙ append-nil (stream fd s.actions)
        ∙ q.silent;
  }
    where
      nothing : sent_to fd to message ≡ []
      nothing = ground arith

  login-Quiet :
      (other : ℕ) (name : Text) (s : Server)
      → other ≢ fd
      → Quiet fd bytes s
      → Quiet fd bytes (handle_login_client name other s)
  login-Quiet other name s ne q =
      unfold handle_login_client in
      (send-Quiet other (codes "Login successful.")
        (record s { client_mapp = assign name other s.client_mapp }) ne bound)
    where
      bound : Quiet fd bytes (record s { client_mapp = assign name other s.client_mapp })
      bound = record {
        ordered = assign-IsAscending name other s.client_mapp q.ordered;
        names = λ k e. ground (arith, lookup-assign name k other s.client_mapp, q.names k);
        clients = q.clients;
        silent = q.silent;
      }

  direct_to-Quiet :
      (other : ℕ) (o : Option ℕ) (message : Text) (s : Server)
      → other ≢ fd
      → o ≢ some fd
      → Quiet fd bytes s
      → Quiet fd bytes (direct_to o message other s)
  unfolding direct_to
  direct_to-Quiet other none message s ne h q =
      send-Quiet other (codes "Error: Receiver not found or offline.") s ne q
  direct_to-Quiet other (some r) message s ne h q =
      let relayed = codes "Direct message from sender: " ++ message in
      send-Quiet other (codes "Direct message sent successfully.")
        (send_message_to_client r relayed s) ne (send-Quiet r relayed s (λ e. h (ap some e)) q)

  direct-Quiet :
      (other : ℕ) (rest : Text) (s : Server)
      → other ≢ fd
      → Quiet fd bytes s
      → Quiet fd bytes (handle_direct_message rest other s)
  unfolding handle_direct_message
  direct-Quiet other rest s ne q = elim (Option-cases (find colon rest)) [
    | inl e ↦
        rw (e, handle_direct_message)
          (send-Quiet other (codes "Error: Invalid message format.") s ne q)
    | inr (pos, e) ↦
        rw (e, handle_direct_message)
          (direct_to-Quiet other (lookup (take pos rest) s.client_mapp) (drop (suc pos) rest) s ne
            (q.names (take pos rest)) q)
  ]

  broadcast-Quiet :
      (other : ℕ) (message : Text) (s : Server)
      → other ≢ fd
      → Quiet fd bytes s
      → Quiet fd bytes (broadcast_message message other s)
  broadcast-Quiet other message s ne q = record {
    ordered = rw names-broadcast q.ordered;
    names = λ k. rw names-broadcast (q.names k);
    clients = rw clients-broadcast q.clients;
    silent =
        stream-broadcast_message fd other message s
        ∙ ap (λ t. stream fd s.actions ++ t) nothing
        ∙ append-nil (stream fd s.actions)
        ∙ q.silent;
  }
    where
      nothing :
          (if fd == other
            then frame (codes "Broadcast sent successfully.")
            else copies (count fd s.clients) (frame (codes "Broadcast: " ++ message)))
          ≡ []
      nothing = rw q.clients (unfold copies in (ground arith))

  close-Quiet :
      (to : ℕ) (s : Server)
      → Quiet fd bytes s
      → Quiet fd bytes (record s { actions = s.actions ++ close to ∷ [] })
  close-Quiet to s q = record {
    ordered = q.ordered;
    names = q.names;
    clients = q.clients;
    silent = stream-append_close fd to s.actions ∙ q.silent;
  }

  forget-Quiet :
      (other : ℕ) (s : Server)
      → other ≢ fd
      → Quiet fd bytes s
      → Quiet fd bytes (record s {
        client_mapp = erase_value other s.client_mapp;
        clients = remove_client other s.clients;
      })
  forget-Quiet other s ne q = record {
    ordered = erase_value-IsAscending other s.client_mapp q.ordered;
    names = λ k e. ground (arith, lookup-erase_value other k s.client_mapp q.ordered, q.names k);
    clients = count-remove_ne fd other s.clients (λ e. ne (sym e)) ∙ q.clients;
    silent = q.silent;
  }

  logout-Quiet :
      (other : ℕ) (s : Server)
      → other ≢ fd
      → Quiet fd bytes s
      → Quiet fd bytes (handle_logout_client other s)
  logout-Quiet other s ne q =
      unfold handle_logout_client in
      (close-Quiet other _
        (send-Quiet other (codes "Logout successful.") _ ne (forget-Quiet other s ne q)))

  handle_round-Quiet :
      (other : ℕ) (r : Round) (s : Server)
      → other ≢ fd
      → Quiet fd bytes s
      → After (Quiet fd bytes) (handle_round r other s)
  handle_round-Quiet other r s ne =
      handle_round-After (Quiet fd bytes) other (λ message s. send-Quiet other message s ne)
        (λ name s. login-Quiet other name s ne) (λ rest s. direct-Quiet other rest s ne)
        (λ message s. broadcast-Quiet other message s ne) (λ s. logout-Quiet other s ne) r s

-- A logout takes the socket out of both tables; its last bytes are the farewell.
pub logout_self-Quiet :
    (fd : ℕ) (s : Server)
    → IsOrdered s
    → Quiet fd
        (stream fd s.actions ++ frame (codes "Logout successful."))
        (handle_logout_client fd s)
unfolding handle_logout_client
logout_self-Quiet fd s o = record {
  ordered = erase_value-IsAscending fd s.client_mapp o;
  names = λ k. names-erase_self fd s.client_mapp k o;
  clients = count-remove_self fd s.clients;
  silent =
      stream-append_close fd fd
        (send_message_to_client fd (codes "Logout successful.") forgotten).actions
      ∙ stream-send_message fd fd (codes "Logout successful.") forgotten
      ∙ ground arith;
}
  where
    forgotten : Server
    forgotten = record s {
      client_mapp = erase_value fd s.client_mapp;
      clients = remove_client fd s.clients;
    }

-- After a logout from a server whose user table is sorted, whatever rounds of other clients follow, one
-- whole round after another, no handler sends anything more to the socket, and it stays out of both
-- tables; of a run in which a buffer overflows nothing is said.
pub serve-logout-Quiet :
    (fd : ℕ) (s : Server) (schedule : List (ℕ × Round))
    → IsOrdered s
    → AllClients (λ other. other ≢ fd) schedule
    → After
        (Quiet fd (stream fd s.actions ++ frame (codes "Logout successful.")))
        (serve schedule (handle_logout_client fd s))
serve-logout-Quiet fd s schedule o a =
    let bytes = stream fd s.actions ++ frame (codes "Logout successful.") in
    serve-After (Quiet fd bytes) (λ other. other ≢ fd) (handle_round-Quiet fd bytes) schedule
      (handle_logout_client fd s) a (logout_self-Quiet fd s o)
