-- ===== src/Echo/Rounds.antt =====
-- The rounds of socket_prog/multi_client_select.cpp and socket_prog/multi_client_poll.cpp against one
-- description: what is answered to a list of descriptors, and which of them stay.
use build_your_own_stuff.Prelude.{
  ℕ, ◌≡◌, refl, ap, sym, ◌∙◌, Bool, true, false, not, ◌&&◌, Option, none, some, List, [], ◌∷◌,
  arith, Text, ◌==◌, if◌then◌else◌,
}
use build_your_own_stuff.Echo.Sockets.{
  recv_from, SocketCall, send, close, Activity, mem, keep, keep-cong, keep-keep, mem-keep,
}
use build_your_own_stuff.Echo.Select.{serve_clients, remove_disconnected}

-- What a server that has input on the descriptors in `test` answers to them: an echo, or a close.
unfoldable pub answers : (ℕ → Bool) → (ℕ → Option Text) → List ℕ → List SocketCall
answers test recv [] = []
answers test recv (fd ∷ fds) =
    let rest = answers test recv fds in
    if test fd
    then (elim (recv fd) [ none ↦ close fd ∷ rest | some bytes ↦ send fd bytes ∷ rest ])
    else rest

-- A descriptor is gone when it has input and recv fails.
unfoldable pub is_gone : (ℕ → Bool) → (ℕ → Option Text) → ℕ → Bool
is_gone test recv fd = test fd && (elim (recv fd) [ none ↦ true | some bytes ↦ false ])

abbrev pub stay : (ℕ → Bool) → (ℕ → Option Text) → List ℕ → List ℕ
stay test recv = keep (λ fd. not (is_gone test recv fd))

pub serve_clients-calls :
    (test : ℕ → Bool) (a : Activity) (fds : List ℕ)
    → (serve_clients test a fds).0 ≡ answers test (λ fd. recv_from a fd 1023) fds
unfolding serve_clients answers
serve_clients-calls test a [] = refl
serve_clients-calls test a (fd ∷ fds) = ground (arith, serve_clients-calls test a fds)

serve_clients-disconnected :
    (test : ℕ → Bool) (a : Activity) (fds : List ℕ)
    → (serve_clients test a fds).1 ≡ keep (is_gone test (λ fd. recv_from a fd 1023)) fds
unfolding serve_clients is_gone
serve_clients-disconnected test a [] = refl
serve_clients-disconnected test a (fd ∷ fds) = ground (arith, serve_clients-disconnected test a fds)

pub keep-all : (xs : List ℕ) → keep (λ x. true) xs ≡ xs
keep-all [] = refl
keep-all (x ∷ xs) = ap (◌∷◌ x) (keep-all xs)

remove_disconnected-keep :
    (gone clients : List ℕ)
    → remove_disconnected gone clients ≡ keep (λ x. not (mem x gone)) clients
unfolding remove_disconnected
remove_disconnected-keep [] clients = sym (keep-all clients)
remove_disconnected-keep (fd ∷ gone) clients =
    remove_disconnected-keep gone (keep (λ x. not (x == fd)) clients)
    ∙ keep-keep (λ x. not (mem x gone)) (λ x. not (x == fd)) clients
    ∙ keep-cong _ _ clients (λ x e. ground arith)

and-true : (x y : Bool) → y ≡ true → (x && y) ≡ x
and-true x y e = ground arith

-- Removing what is gone by value leaves what stays.
pub remove_disconnected-stay :
    (test : ℕ → Bool) (a : Activity) (fds : List ℕ)
    → remove_disconnected (serve_clients test a fds).1 fds
      ≡ stay test (λ fd. recv_from a fd 1023) fds
remove_disconnected-stay test a fds =
    remove_disconnected-keep _ fds
    ∙ keep-cong _ _ fds (λ x e. ap not (
        ap (mem x) (serve_clients-disconnected test a fds)
        ∙ mem-keep (is_gone test (λ fd. recv_from a fd 1023)) x fds
        ∙ and-true _ _ e))
