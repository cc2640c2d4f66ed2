-- ===== src/MultiClient/Examples.antt =====
-- The theorems on the multi-client server at concrete inputs, and runs of its code.
use build_your_own_stuff.Prelude.{
  ℕ, ◌≡◌, ◌≢◌, ◌↔◌, refl, subst, sym, text_eq_iff, Bool-cases, inl, inr, find, none, some, List, [],
  ◌∷◌, ◌++◌, arith, Text, codes, text_eq, Lacks, length, if◌then◌else◌, ◌==◌,
}
use build_your_own_stuff.MultiClient.NameMap.{lookup, assign, text_ltb}
use build_your_own_stuff.MultiClient.Wire.{htonl, ntohl, as_size, frame, stream}
use build_your_own_stuff.MultiClient.Streams.{stream-broadcast_message, copies, count, sent_to}
use build_your_own_stuff.MultiClient.Routing.{
  whole, Delivered, direct_round-Delivered, login_then_direct, login_round,
}
use build_your_own_stuff.MultiClient.Schedule.{serve, After, IsOrdered, serve-IsOrdered}
use build_your_own_stuff.MultiClient.Race.{testing, finished, turns}
use build_your_own_stuff.MultiClient.Misdirection.{racing, Misdirected, direct_logout_race}
use build_your_own_stuff.MultiClient.Logout.{Quiet, serve-logout-Quiet}
use build_your_own_stuff.MultiClient.Overflow.{
  TooLong, handle_round-overflows, short_claim_safe, long_claim_overflows, IsPossible,
}
use build_your_own_stuff.MultiClient.Names.{direct_misses_colon_names, IsUnaddressed}
use build_your_own_stuff.MultiClient.Client.{
  client_session, meant, frames, stream-client_session, frame_claim, sends_work, all_sent,
}
use build_your_own_stuff.MultiClient.Server.{
  Server, Round, continues, overflows, colon, handle_round, handle_login_client,
  handle_logout_client, handle_direct_message, handle_online_users, broadcast_message,
}

-- Sockets 4 and 5 are connected, and 5 is logged in as bob.
abbrev two_clients : Server
two_clients = record { clients = 4 ∷ 5 ∷ []; client_mapp = (codes "bob", 5) ∷ []; actions = [] }

abbrev to_bob : Round
to_bob = whole [] (codes "direct:bob:hi: there")

two_clients-IsOrdered : IsOrdered two_clients
two_clients-IsOrdered = (tt, tt)

bob_is_5 : lookup (codes "bob") two_clients.client_mapp ≡ some 5
unfolding lookup text_eq
bob_is_5 = refl

-- The list of online users is in the order of the names, not of the logins.
online_users_sorted :
    stream 4 (handle_online_users 4 (handle_login_client (codes "ann") 4 two_clients)).actions
    ≡ frame (codes "Login successful.")
      ++ frame (codes "Online Users:" ++ 10 ∷ codes "ann" ++ 10 ∷ codes "bob" ++ 10 ∷ [])
unfolding stream frame handle_online_users handle_login_client assign text_ltb text_eq
online_users_sorted = refl

direct_round-Delivered_test :
    (t : Server) × (handle_round to_bob 4 two_clients ≡ continues t)
    × Delivered 4 5 (codes "hi: there") two_clients t
direct_round-Delivered_test =
    direct_round-Delivered [] (codes "bob") (codes "hi: there") 4 5 two_clients (ground arith)
      (ground arith) (omega arith) bob_is_5 (omega arith)

login_round_test :
    (t : Server) × (handle_round (whole [] (codes "login:bob")) 4 two_clients ≡ continues t)
    × (t.clients ≡ two_clients.clients)
    × ((j : Text)
        → lookup j t.client_mapp
          ≡ (if text_eq (codes "bob") j then some 4 else lookup j two_clients.client_mapp))
    × ((other : ℕ)
        → stream other t.actions
          ≡ stream other two_clients.actions ++ sent_to other 4 (codes "Login successful."))
login_round_test = login_round [] (codes "bob") 4 two_clients (ground arith) (omega arith)

login_then_direct_example :
    (t u : Server) × (handle_round (whole [] (codes "login:ann")) 4 two_clients ≡ continues t)
    × (handle_round (whole [] (codes "direct:ann:hello")) 5 t ≡ continues u)
    × Delivered 5 4 (codes "hello") t u
login_then_direct_example =
    login_then_direct [] [] (codes "ann") (codes "hello") 5 4 two_clients (ground arith)
      (ground arith) (ground arith) (omega arith) (omega arith) (omega arith)

stream-broadcast_message_example :
    stream 5 (broadcast_message (codes "hi") 4 two_clients).actions
    ≡ []
      ++ (if 5 == 4
          then frame (codes "Broadcast sent successfully.")
          else copies (count 5 (4 ∷ 5 ∷ [])) (frame (codes "Broadcast: hi")))
unfolding stream
stream-broadcast_message_example = stream-broadcast_message 5 4 (codes "hi") two_clients

abbrev traffic : List (ℕ × Round)
traffic = (4, to_bob) ∷ (4, whole [] (codes "broadcast:all")) ∷ (4, whole [] (codes "logout")) ∷ []

serve-IsOrdered_test : After IsOrdered (serve traffic two_clients)
serve-IsOrdered_test = serve-IsOrdered traffic two_clients two_clients-IsOrdered

serve-logout-Quiet_test :
    After
      (Quiet 5 (stream 5 two_clients.actions ++ frame (codes "Logout successful.")))
      (serve traffic (handle_logout_client 5 two_clients))
serve-logout-Quiet_test =
    serve-logout-Quiet 5 two_clients traffic two_clients-IsOrdered (omega arith)

handle_round-overflows_example :
    (handle_round to_bob 4 two_clients ≡ overflows)
    ↔ TooLong (some []) (some (codes "direct:bob:hi: there"))
handle_round-overflows_example = handle_round-overflows to_bob 4 two_clients

short_claim_safe_test : handle_round (whole (htonl 6) (codes "logout")) 4 two_clients ≢ overflows
unfolding htonl
short_claim_safe_test =
    short_claim_safe (whole (htonl 6) (codes "logout")) (htonl 6) 4 two_clients refl
      (unfold ntohl in (omega arith)) (unfold ntohl as_size in (omega arith))

long_claim_overflows_test :
    (body : Text) × IsPossible (record { header = some (htonl 1024); body = some body })
    × (handle_round (record { header = some (htonl 1024); body = some body }) 4 two_clients
        ≡ overflows)
long_claim_overflows_test = long_claim_overflows 1024 4 two_clients (omega arith) (omega arith)

-- Socket 5 under the name "a:b" alone.
abbrev colon_name : Server
colon_name = record { clients = 4 ∷ 5 ∷ []; client_mapp = (codes "a:b", 5) ∷ []; actions = [] }

colon_name-IsUnaddressed : IsUnaddressed 5 colon_name
unfolding lookup
colon_name-IsUnaddressed k l e = elim (Bool-cases (text_eq (codes "a:b") k)) [
  | inl p ↦
      let held : Lacks colon (codes "a:b") =
        subst (Lacks colon) (sym ((text_eq_iff (codes "a:b") k).0 p)) l in
      cc (held.1.0)
  | inr p ↦ ground arith
]

direct_misses_colon_names_test :
    stream 5 (handle_direct_message (codes "a:b:hi") 4 colon_name).actions ≡ stream 5 []
direct_misses_colon_names_test =
    direct_misses_colon_names 5 4 (codes "a:b:hi") colon_name colon_name-IsUnaddressed (omega arith)

stream-client_session_example :
    stream 3 (
      client_session
        (codes "ann")
        sends_work
        (all_sent ([] ∷ codes "logout" ∷ codes "late" ∷ []))
        3)
    ≡ frame (codes "login:ann") ++ frames (meant ([] ∷ codes "logout" ∷ codes "late" ∷ []))
stream-client_session_example =
    stream-client_session (codes "ann") ([] ∷ codes "logout" ∷ codes "late" ∷ []) 3

frame_claim_test :
    (header : Text) × (frame (codes "hi") ≡ header ++ codes "hi")
    × (length header ≡ 4)
    × (as_size (ntohl header) ≡ 2)
frame_claim_test = frame_claim (codes "hi") (omega arith)

-- alice on socket 4 has found bob, on socket 5, when his connection ends.
direct_logout_race_example :
    (t : Server) × (turns 4
        (racing 5 (record { header = none; body = none }))
        (testing (codes "bob:hi"), two_clients)
      ≡ some (finished, t))
    × Misdirected 4 5 (codes "bob") (codes "hi") two_clients t
unfolding find
direct_logout_race_example =
    direct_logout_race 4 5 3 (codes "bob:hi") (record { header = none; body = none }) two_clients
      two_clients-IsOrdered refl bob_is_5 (omega arith) (omega arith) (omega arith) refl
