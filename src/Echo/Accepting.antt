-- ===== src/Echo/Accepting.antt =====
-- What a round of socket_prog/multi_client_select.cpp and one of socket_prog/multi_client_poll.cpp do
-- with the listening socket.
use build_your_own_stuff.Prelude.{
  ℕ, suc, ◌≤◌, ◌<◌, ◌≡◌, refl, ap, ap₂, sym, ◌∙◌, ◌⊎◌, Bool, true, false, Bool-cases, Option-cases,
  inl, inr, none, some, List, [], ◌∷◌, ◌++◌, map, arith, length, length-append, lt→ltb, ◌==◌,
  ==_iff,
}
use build_your_own_stuff.Echo.Sockets.{Activity, mem, mem-append}
use build_your_own_stuff.Echo.Select.{is_set, push_accepted, accept_client}
use build_your_own_stuff.Echo.Poll.{Pollfd, watch, push_pollfd, pass}
use build_your_own_stuff.Echo.Visits.{entry}

-- accept gives a descriptor that nobody has.
abbrev pub IsFresh : ℕ → List ℕ → Activity → Type 0
IsFresh listener clients a =
    (new_fd : ℕ)
    → a.accepted ≡ some new_fd
    → (0 < new_fd) × (mem new_fd (listener ∷ clients) ≡ false)

map-entry :
    (p q : ℕ → Bool) (fds : List ℕ)
    → ((fd : ℕ) → mem fd fds ≡ true → p fd ≡ q fd)
    → map (entry p) fds ≡ map (entry q) fds
map-entry p q [] h = refl
map-entry p q (fd ∷ fds) h =
    ap₂ (λ b rest. record { fd = fd; revents = b } ∷ rest) (h fd (ground arith))
      (map-entry p q fds (λ x e. h x (ground (arith, e))))

map-entry-append :
    (p : ℕ → Bool) (xs ys : List ℕ)
    → map (entry p) (xs ++ ys) ≡ map (entry p) xs ++ map (entry p) ys
map-entry-append p [] ys = refl
map-entry-append p (x ∷ xs) ys = ap (◌∷◌ (entry p x)) (map-entry-append p xs ys)

pub fd-entry : (p : ℕ → Bool) (fds : List ℕ) → map (λ q. q.fd) (map (entry p) fds) ≡ fds
fd-entry p [] = refl
fd-entry p (fd ∷ fds) = ap (◌∷◌ fd) (fd-entry p fds)

==-refl : (x : ℕ) → (x == x) ≡ true
==-refl x = (==_iff x x).1 refl

module _ (listener : ℕ) (a : Activity) (clients : List ℕ) where
  -- The two servers take what accept gives alike.
  pub accept-quiet : a.ready listener ≡ false → accept_client listener clients a ≡ clients
  unfolding accept_client is_set
  accept-quiet h = ground (arith, h)

  pub accept-none : a.accepted ≡ none → accept_client listener clients a ≡ clients
  unfolding accept_client push_accepted
  accept-none h = ground (arith, h)

  pub accept-some :
      (new_fd : ℕ)
      → a.ready listener ≡ true
      → a.accepted ≡ some new_fd
      → accept_client listener clients a ≡ clients ++ new_fd ∷ []
  unfolding accept_client is_set push_accepted
  accept-some new_fd r h = rw (==-refl listener, r, h, push_accepted, accept_client) refl

  pass-listener_quiet :
      (es : List Pollfd)
      → a.ready listener ≡ false
      → pass listener a 0 es (entry a.ready listener) ≡ ([], 1, es)
  unfolding pass
  pass-listener_quiet es h = ground (arith, h)

  pass-listener_none :
      (es : List Pollfd)
      → a.ready listener ≡ true
      → a.accepted ≡ none
      → pass listener a 0 es (entry a.ready listener) ≡ ([], 1, es)
  unfolding pass push_pollfd
  pass-listener_none es r h = rw (r, ==-refl listener, h, push_pollfd, pass) refl

  pass-listener_some :
      (es : List Pollfd) (new_fd : ℕ)
      → a.ready listener ≡ true
      → a.accepted ≡ some new_fd
      → 0 < new_fd
      → pass listener a 0 es (entry a.ready listener) ≡ ([], 1, es ++ watch new_fd ∷ [])
  unfolding pass push_pollfd
  pass-listener_some es new_fd r h positive =
      rw (r, ==-refl listener, h, lt→ltb 0 new_fd positive, push_pollfd, pass) refl

  -- The clients of a round are those before it, and at most one more, which has no input yet.
  pub accept_client-cases :
      IsFresh listener clients a
      → (accept_client listener clients a ≡ clients)
        ⊎ ((new_fd : ℕ) × (accept_client listener clients a ≡ clients ++ new_fd ∷ [])
            × (is_set listener clients a new_fd ≡ false))
  unfolding is_set
  accept_client-cases fresh = elim (Bool-cases (a.ready listener)) [
    | inr quiet ↦ inl (accept-quiet quiet)
    | inl input ↦ elim (Option-cases a.accepted) [
      | inl refused ↦ inl (accept-none refused)
      | inr (new_fd, taken) ↦
          inr (new_fd, accept-some new_fd input taken, ground (arith, (fresh new_fd taken).1))
    ]
  ]

  clients-entry : map (entry a.ready) clients ≡ map (entry (is_set listener clients a)) clients
  unfolding is_set
  clients-entry = map-entry _ _ clients (λ fd e. ground arith)

  new_fd-entry :
      (new_fd : ℕ)
      → mem new_fd (listener ∷ clients) ≡ false
      → map (entry a.ready) clients ++ watch new_fd ∷ []
        ≡ map (entry (is_set listener clients a)) (clients ++ new_fd ∷ [])
  unfolding is_set
  new_fd-entry new_fd h =
      ap₂ (λ es b. es ++ record { fd = new_fd; revents = b } ∷ []) clients-entry (ground (arith, h))
      ∙ sym (map-entry-append _ clients (new_fd ∷ []))

  unfoldable pub IsAccepted : List ℕ → Type 0
  IsAccepted all_clients =
      (accept_client listener clients a ≡ all_clients)
      × (length all_clients ≤ suc (length clients))
      × (mem listener all_clients ≡ false)
      × (pass listener a 0 (map (entry a.ready) (listener ∷ clients)) (entry a.ready listener)
          ≡ ([], 1, entry a.ready listener ∷ map (entry (is_set listener clients a)) all_clients))

  pub IsAccepted-cases :
      mem listener clients ≡ false
      → IsFresh listener clients a
      → (all_clients : List ℕ) × IsAccepted all_clients
  unfolding IsAccepted
  IsAccepted-cases l fresh = elim (Bool-cases (a.ready listener)) [
    | inr quiet ↦ (
      clients,
      (
        accept-quiet quiet,
        omega arith,
        l,
        pass-listener_quiet _ quiet ∙ ap (λ es. ([], 1, entry a.ready listener ∷ es)) clients-entry,
      ),
    )
    | inl input ↦ elim (Option-cases a.accepted) [
      | inl refused ↦ (
        clients,
        (
          accept-none refused,
          omega arith,
          l,
          pass-listener_none _ input refused
              ∙ ap (λ es. ([], 1, entry a.ready listener ∷ es)) clients-entry,
        ),
      )
      | inr (new_fd, taken) ↦ (
        clients ++ new_fd ∷ [],
        (
          accept-some new_fd input taken,
          omega (arith, length-append clients (new_fd ∷ [])),
          mem-append listener clients (new_fd ∷ []) ∙ ground (arith, (fresh new_fd taken).1),
          pass-listener_some _ new_fd input taken (fresh new_fd taken).0
              ∙ ap (λ es. ([], 1, entry a.ready listener ∷ es))
                  (new_fd-entry new_fd (fresh new_fd taken).1),
        ),
      )
    ]
  ]
