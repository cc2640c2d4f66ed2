-- ===== src/Calls/Tidy.antt =====
-- The discipline of Calls/Owns on the programs of Calls/Steps and Calls/Servers.
use build_your_own_stuff.Prelude.{
  ℕ, zero, suc, ◌≡◌, refl, sym, ap, subst, fun_ext, Bool, true, false, Bool-cases, inl, inr, Option,
  none, some, List, [], ◌∷◌, ◌++◌, Text, arith, ◌==◌, ==_iff,
}
use build_your_own_stuff.Echo.Sockets.{mem}
use build_your_own_stuff.Calls.Program.{
  bind, listen, Program, exit, running, attempts, closes, checked, arrived, Open, nothing_open,
  with_fd, without_fd, Kernel, IsFresh, run,
}
use build_your_own_stuff.Calls.Owns.{Owns, Keeps, run-Keeps}
use build_your_own_stuff.Calls.Steps.{step1_main, step2_main, step3_main, echo_loop, step4_main}
use build_your_own_stuff.Calls.Servers.{select_main, accept_loop, threaded_main, shutdown_server}

-- Nothing is open.
abbrev pub Closed : ℕ → Open → Type 0
Closed code open_fds = (fd : ℕ) → open_fds fd ≡ false

module _ (open_fds : Open) where
  checked-Owns :
      (failed go : Program)
      → Owns Closed open_fds failed
      → Owns Closed open_fds go
      → (b : Bool) → Owns Closed open_fds (checked failed go b)
  checked-Owns failed go f g false = f
  checked-Owns failed go f g true = g

  arrived-Owns :
      (failed : Program) (go : Text → Program)
      → Owns Closed open_fds failed
      → ((bytes : Text) → Owns Closed open_fds (go bytes))
      → (r : Option Text) → Owns Closed open_fds (arrived failed go r)
  arrived-Owns failed go f g none = f
  arrived-Owns failed go f g (some bytes) = g bytes

without-with :
    (fd : ℕ) (open_fds : Open)
    → open_fds fd ≡ false
    → without_fd fd (with_fd fd open_fds) ≡ open_fds
without-with fd open_fds h = fun_ext (λ x. without_lem x)
  where
    without_lem : (x : ℕ) → without_fd fd (with_fd fd open_fds) x ≡ open_fds x
    without_lem x = elim (Bool-cases (x == fd)) [
      | inl e ↦ ground (arith, ap open_fds ((==_iff x fd).0 e))
      | inr e ↦ ground (arith, e)
    ]

with_fd_self : (fd : ℕ) (open_fds : Open) → with_fd fd open_fds fd ≡ true
with_fd_self fd open_fds = ground arith

-- What was opened last is closed.
closes-Owns :
    (fd : ℕ) (open_fds : Open) (next : Program)
    → open_fds fd ≡ false
    → Owns Closed open_fds next
    → Owns Closed (with_fd fd open_fds) (closes fd next)
closes-Owns fd open_fds next h o =
    (with_fd_self fd open_fds, subst (λ s. Owns Closed s next) (sym (without-with fd open_fds h)) o)

-- A listening socket that is set up or closed.
set_up-Owns :
    (fd port backlog : ℕ) (open_fds : Open) (go : Program)
    → open_fds fd ≡ false
    → Closed 1 open_fds
    → Owns Closed (with_fd fd open_fds) go
    → Owns Closed (with_fd fd open_fds) (
        attempts (bind fd port) (
          checked
            (closes fd (exit 1))
            (attempts (listen fd backlog) (checked (closes fd (exit 1)) go))))
set_up-Owns fd port backlog open_fds go h closed o =
    let failed = closes-Owns fd open_fds (exit 1) h closed in
    (
      with_fd_self fd open_fds,
      checked-Owns (with_fd fd open_fds) _ _ failed
          (with_fd_self fd open_fds, checked-Owns (with_fd fd open_fds) _ _ failed o),
    )

pub step3-Owns : Owns Closed nothing_open step3_main
unfolding step3_main
step3-Owns = (
  refl,
  (λ x. refl),
  λ fd h.
      set_up-Owns fd 8080 5 nothing_open _ h (λ x. refl)
        (
          with_fd_self fd nothing_open,
          closes-Owns fd nothing_open (exit 1) h (λ x. refl),
          λ client_fd h'.
              closes-Owns client_fd (with_fd fd nothing_open) (closes fd (exit 0)) h'
                (closes-Owns fd nothing_open (exit 0) h (λ x. refl)),
        ),
)

step1-Owns : Owns Closed nothing_open step1_main
unfolding step1_main
step1-Owns = (refl, (λ x. refl), λ fd h. closes-Owns fd nothing_open (exit 0) h (λ x. refl))

step2-Owns : Owns Closed nothing_open step2_main
unfolding step2_main
step2-Owns = (
  refl,
  (λ x. refl),
  λ fd h. (
    with_fd_self fd nothing_open,
    checked-Owns (with_fd fd nothing_open) _ _ (closes-Owns fd nothing_open (exit 1) h (λ x. refl))
        (closes-Owns fd nothing_open (exit 0) h (λ x. refl)),
  ),
)

echo_loop-Owns :
    (turns client_fd server_fd : ℕ)
    → nothing_open server_fd ≡ false
    → with_fd server_fd nothing_open client_fd ≡ false
    → Owns Closed
        (with_fd client_fd (with_fd server_fd nothing_open))
        (echo_loop turns client_fd server_fd)
unfolding echo_loop
echo_loop-Owns zero client_fd server_fd s c = tt
echo_loop-Owns (suc turns) client_fd server_fd s c = (
  with_fd_self client_fd (with_fd server_fd nothing_open),
  arrived-Owns (with_fd client_fd (with_fd server_fd nothing_open)) _ _
      (closes-Owns client_fd (with_fd server_fd nothing_open) (closes server_fd (exit 0)) c
        (closes-Owns server_fd nothing_open (exit 0) s (λ x. refl)))
      (λ bytes. (
        with_fd_self client_fd (with_fd server_fd nothing_open),
        echo_loop-Owns turns client_fd server_fd s c,
      )),
)

step4-Owns : (turns : ℕ) → Owns Closed nothing_open (step4_main turns)
unfolding step4_main
step4-Owns turns = (
  refl,
  (λ x. refl),
  λ fd h.
      set_up-Owns fd 8080 1 nothing_open _ h (λ x. refl)
        (
          with_fd_self fd nothing_open,
          closes-Owns fd nothing_open (exit 1) h (λ x. refl),
          λ client_fd h'. echo_loop-Owns turns client_fd fd h h',
        ),
)

select-Owns : (somaxconn : ℕ) → Owns Closed nothing_open (select_main somaxconn)
unfolding select_main
select-Owns somaxconn =
    (refl, (λ x. refl), λ fd h. set_up-Owns fd 8080 somaxconn nothing_open running h (λ x. refl) tt)

-- A client that is handed on is not the loop's any more.
accept_loop-Owns :
    (turns fd : ℕ) (open_fds : Open)
    → open_fds fd ≡ true
    → Owns Closed open_fds (accept_loop turns fd)
unfolding accept_loop
accept_loop-Owns zero fd open_fds h = tt
accept_loop-Owns (suc turns) fd open_fds h = (
  h,
  accept_loop-Owns turns fd open_fds h,
  λ client_fd fresh. (
    with_fd_self client_fd open_fds,
    subst (λ o. Owns Closed o (accept_loop turns fd)) (sym (without-with client_fd open_fds fresh))
        (accept_loop-Owns turns fd open_fds h),
  ),
)

threaded-Owns : (turns : ℕ) → Owns Closed nothing_open (threaded_main turns)
unfolding threaded_main
threaded-Owns turns = (
  refl,
  (λ x. refl),
  λ fd h.
      set_up-Owns fd 8080 10 nothing_open _ h (λ x. refl)
        (accept_loop-Owns turns fd (with_fd fd nothing_open) (with_fd_self fd nothing_open)),
)

-- Under every kernel that opens fresh descriptors, the programs of the tutorial, and the set-up of the
-- select server and of the threaded server with its accepting loop, make no call on a descriptor that
-- is not open, and where they exit every descriptor is closed.
pub run-Closed :
    (k : Kernel) (n turns somaxconn : ℕ)
    → IsFresh k
    → Keeps Closed (run k n nothing_open step1_main)
      × Keeps Closed (run k n nothing_open step2_main)
      × Keeps Closed (run k n nothing_open step3_main)
      × Keeps Closed (run k n nothing_open (step4_main turns))
      × Keeps Closed (run k n nothing_open (select_main somaxconn))
      × Keeps Closed (run k n nothing_open (threaded_main turns))
run-Closed k n turns somaxconn fresh = (
  run-Keeps Closed k n nothing_open step1_main fresh step1-Owns,
  run-Keeps Closed k n nothing_open step2_main fresh step2-Owns,
  run-Keeps Closed k n nothing_open step3_main fresh step3-Owns,
  run-Keeps Closed k n nothing_open (step4_main turns) fresh (step4-Owns turns),
  run-Keeps Closed k n nothing_open (select_main somaxconn) fresh (select-Owns somaxconn),
  run-Keeps Closed k n nothing_open (threaded_main turns) fresh (threaded-Owns turns),
)

-- The descriptors of a list, each in it once.
abbrev pub NoRepeat : List ℕ → Type 0
NoRepeat [] = Unit {0}
NoRepeat (x ∷ xs) = (mem x xs ≡ false) × NoRepeat xs

abbrev pub all_of : List ℕ → Open
all_of fds fd = mem fd fds

without-all_of :
    (fd : ℕ) (fds : List ℕ) → mem fd fds ≡ false → without_fd fd (all_of (fd ∷ fds)) ≡ all_of fds
without-all_of fd fds h = fun_ext (λ x. without_lem x)
  where
    without_lem : (x : ℕ) → without_fd fd (all_of (fd ∷ fds)) x ≡ all_of fds x
    without_lem x = elim (Bool-cases (x == fd)) [
      | inl e ↦ ground (arith, ap (all_of fds) ((==_iff x fd).0 e))
      | inr e ↦ ground (arith, e)
    ]

close_all-Owns :
    (clients : List ℕ) (server_socket : ℕ)
    → NoRepeat (clients ++ server_socket ∷ [])
    → Owns Closed (all_of (clients ++ server_socket ∷ [])) (shutdown_server clients server_socket)
unfolding shutdown_server
close_all-Owns [] server_socket h = (
  ground arith,
  subst (λ o. Owns Closed o (exit 0)) (sym (without-all_of server_socket [] refl)) (λ x. refl),
)
close_all-Owns (client ∷ clients) server_socket h = (
  ground arith,
  subst (λ o. Owns Closed o (shutdown_server clients server_socket))
      (sym (without-all_of client (clients ++ server_socket ∷ []) h.0))
      (close_all-Owns clients server_socket h.1),
)

-- Where exactly the clients and the listening socket are open, each once, shutdownServer closes every
-- descriptor, and none twice.
pub shutdown_server-Closed :
    (k : Kernel) (n : ℕ) (clients : List ℕ) (server_socket : ℕ)
    → IsFresh k
    → NoRepeat (clients ++ server_socket ∷ [])
    → Keeps Closed
        (run k n (all_of (clients ++ server_socket ∷ [])) (shutdown_server clients server_socket))
shutdown_server-Closed k n clients server_socket fresh h =
    run-Keeps Closed k n _ (shutdown_server clients server_socket) fresh
      (close_all-Owns clients server_socket h)
