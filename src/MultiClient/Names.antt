-- ===== src/MultiClient/Names.antt =====
-- Names with a ':' in cpp/socket_programming/multi_client_server/server.cpp: a login accepts them,
-- and a direct message cannot name them.
use build_your_own_stuff.Prelude.{
  ℕ, suc, ◌≡◌, ◌≢◌, ap, sym, ◌∙◌, Option-cases, Bool-cases, subst, inl, inr, Option, none, some,
  ◌++◌, append-nil, arith, take, drop, Text, codes, find, find-ge-Lacks, Lacks, text_eq,
  text_eq_iff,
}
use build_your_own_stuff.MultiClient.NameMap.{lookup, assign, lookup-assign}
use build_your_own_stuff.MultiClient.Wire.{stream}
use build_your_own_stuff.MultiClient.Streams.{sent_to, stream-send_message}
use build_your_own_stuff.MultiClient.Server.{
  Server, colon, send_message_to_client, handle_login_client, direct_to, handle_direct_message,
}

-- No name without ':' stands for the socket.
abbrev pub IsUnaddressed : ℕ → Server → Type 0
IsUnaddressed fd s = (k : Text) → Lacks colon k → lookup k s.client_mapp ≢ some fd

stream-send-other :
    (fd to : ℕ) (message : Text) (s : Server)
    → to ≢ fd
    → stream fd (send_message_to_client to message s).actions ≡ stream fd s.actions
stream-send-other fd to message s ne =
    ground (arith, stream-send_message fd to message s, append-nil (stream fd s.actions))

stream-direct_to-other :
    (fd sender : ℕ) (o : Option ℕ) (message : Text) (s : Server)
    → sender ≢ fd
    → o ≢ some fd
    → stream fd (direct_to o message sender s).actions ≡ stream fd s.actions
unfolding direct_to
stream-direct_to-other fd sender none message s ne h =
    stream-send-other fd sender (codes "Error: Receiver not found or offline.") s ne
stream-direct_to-other fd sender (some r) message s ne h =
    let relayed = codes "Direct message from sender: " ++ message in
    stream-send-other fd sender (codes "Direct message sent successfully.")
      (send_message_to_client r relayed s) ne
    ∙ stream-send-other fd r relayed s (λ e. h (ap some e))

-- No direct message from another client reaches a socket that only has names with a ':'.
pub direct_misses_colon_names :
    (fd sender : ℕ) (event_data : Text) (s : Server)
    → IsUnaddressed fd s
    → sender ≢ fd
    → stream fd (handle_direct_message event_data sender s).actions ≡ stream fd s.actions
unfolding handle_direct_message
direct_misses_colon_names fd sender event_data s u ne =
    elim (Option-cases (find colon event_data)) [
      | inl e ↦
          rw (e, handle_direct_message)
            (stream-send-other fd sender (codes "Error: Invalid message format.") s ne)
      | inr (pos, e) ↦
          rw (e, handle_direct_message)
            (stream-direct_to-other fd sender (lookup (take pos event_data) s.client_mapp)
              (drop (suc pos) event_data) s ne
              (u (take pos event_data) (find-ge-Lacks colon event_data pos e)))
    ]

-- A login under a name with a ':' leaves its socket so, and is confirmed all the same.
pub login_colon_name-IsUnaddressed :
    (fd : ℕ) (name : Text) (s : Server)
    → ¬ Lacks colon name
    → IsUnaddressed fd s
    → IsUnaddressed fd (handle_login_client name fd s)
      × (stream fd (handle_login_client name fd s).actions
          ≡ stream fd s.actions ++ sent_to fd fd (codes "Login successful."))
unfolding handle_login_client
login_colon_name-IsUnaddressed fd name s c u = (
  (λ k l e. elim (Bool-cases (text_eq name k)) [
    | inl p ↦ c (subst (Lacks colon) (sym ((text_eq_iff name k).0 p)) l)
    | inr p ↦ u k l (ground (arith, lookup-assign name k fd s.client_mapp))
  ]),
  stream-send_message fd fd (codes "Login successful.")
      (record s { client_mapp = assign name fd s.client_mapp }),
)
