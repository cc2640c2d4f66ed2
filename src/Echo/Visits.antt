-- ===== src/Echo/Visits.antt =====
-- The loop of socket_prog/multi_client_poll.cpp over its entries, pass by pass.
use build_your_own_stuff.Prelude.{
  ℕ, zero, suc, ◌<◌, ◌≡◌, refl, ap, ap₂, sym, ◌∙◌, Bool, true, false, Bool-cases, Option-cases, inl,
  inr, Option, none, some, List, [], ◌∷◌, ◌++◌, append_assoc, map, arith, length, length-append,
  get_elem?, Text, ◌==◌,
}
use build_your_own_stuff.Echo.Sockets.{recv_from, SocketCall, send, close, Activity, mem}
use build_your_own_stuff.Echo.Poll.{Pollfd, pass, after_calls, visit, erase_at}
use build_your_own_stuff.Echo.Rounds.{answers, is_gone, stay}

abbrev pub entry : (ℕ → Bool) → ℕ → Pollfd
entry test fd = record { fd = fd; revents = test fd }

get_elem?-length :
    (front : List Pollfd) (p : Pollfd) (rest : List Pollfd)
    → get_elem? (front ++ p ∷ rest) (length front) ≡ some p
get_elem?-length [] p rest = refl
get_elem?-length (q ∷ front) p rest = get_elem?-length front p rest

get_elem?-end : (front : List Pollfd) → get_elem? (front ++ []) (length front) ≡ none
get_elem?-end [] = refl
get_elem?-end (q ∷ front) = get_elem?-end front

erase_at-length :
    (front : List Pollfd) (p : Pollfd) (rest : List Pollfd)
    → erase_at (length front) (front ++ p ∷ rest) ≡ front ++ rest
unfolding erase_at
erase_at-length [] p rest = refl
erase_at-length (q ∷ front) p rest = ap (◌∷◌ q) (erase_at-length front p rest)

pub visit-step :
    (listener fuel : ℕ) (a : Activity) (front : List Pollfd) (p : Pollfd) (rest : List Pollfd)
    (calls : List SocketCall) (i : ℕ) (es : List Pollfd)
    → pass listener a (length front) (front ++ p ∷ rest) p ≡ (calls, i, es)
    → visit listener (suc fuel) a (length front) (front ++ p ∷ rest)
      ≡ after_calls calls (visit listener fuel a i es)
unfolding visit
visit-step listener fuel a front p rest calls i es e =
    ap
      (λ o. elim o as (λ x. Option (List SocketCall × List Pollfd)) [
        | none ↦ some ([], front ++ p ∷ rest)
        | some q ↦ after_calls (pass listener a (length front) (front ++ p ∷ rest) q).0 (
            visit listener fuel a (pass listener a (length front) (front ++ p ∷ rest) q).1
              (pass listener a (length front) (front ++ p ∷ rest) q).2)
      ])
      (get_elem?-length front p rest)
    ∙ ap (λ r. after_calls r.0 (visit listener fuel a r.1 r.2)) e

advance :
    (listener fuel : ℕ) (a : Activity) (front : List Pollfd) (p : Pollfd) (rest : List Pollfd)
    → visit listener fuel a (suc (length front)) (front ++ p ∷ rest)
      ≡ visit listener fuel a (length (front ++ p ∷ [])) ((front ++ p ∷ []) ++ rest)
advance listener fuel a front p rest =
    ap₂ (visit listener fuel a) (omega (arith, length-append front (p ∷ [])))
      (sym (append_assoc front (p ∷ []) rest))

pass-quiet :
    (listener : ℕ) (a : Activity) (test : ℕ → Bool) (fd i : ℕ) (es : List Pollfd)
    → test fd ≡ false
    → pass listener a i es (entry test fd) ≡ ([], suc i, es)
unfolding pass
pass-quiet listener a test fd i es h = ground arith

pass-echo :
    (listener : ℕ) (a : Activity) (test : ℕ → Bool) (fd i : ℕ) (es : List Pollfd) (bytes : Text)
    → test fd ≡ true
    → (fd == listener) ≡ false
    → recv_from a fd 1024 ≡ some bytes
    → pass listener a i es (entry test fd) ≡ (send fd bytes ∷ [], suc i, es)
unfolding pass
pass-echo listener a test fd i es bytes h l r = rw (h, l, r, pass) refl

pass-close :
    (listener : ℕ) (a : Activity) (test : ℕ → Bool) (fd i : ℕ) (es : List Pollfd)
    → test fd ≡ true
    → (fd == listener) ≡ false
    → recv_from a fd 1024 ≡ none
    → pass listener a i es (entry test fd) ≡ (close fd ∷ [], i, erase_at i es)
unfolding pass
pass-close listener a test fd i es h l r = rw (h, l, r, pass) refl

visit-end :
    (listener fuel : ℕ) (a : Activity) (front : List Pollfd)
    → visit listener (suc fuel) a (length front) (front ++ []) ≡ some ([], front ++ [])
unfolding visit
visit-end listener fuel a front = rw (get_elem?-end front, visit) refl

module _ (test : ℕ → Bool) (recv : ℕ → Option Text) where
  -- What the reference has for one descriptor more.
  answers-quiet :
      (fd : ℕ) (fds : List ℕ)
      → test fd ≡ false
      → answers test recv (fd ∷ fds) ≡ answers test recv fds
  unfolding answers
  answers-quiet fd fds h = rw (h, answers) refl

  answers-echo :
      (fd : ℕ) (fds : List ℕ) (bytes : Text)
      → test fd ≡ true
      → recv fd ≡ some bytes
      → answers test recv (fd ∷ fds) ≡ send fd bytes ∷ answers test recv fds
  unfolding answers
  answers-echo fd fds bytes h r = rw (h, r, answers) refl

  answers-close :
      (fd : ℕ) (fds : List ℕ)
      → test fd ≡ true
      → recv fd ≡ none
      → answers test recv (fd ∷ fds) ≡ close fd ∷ answers test recv fds
  unfolding answers
  answers-close fd fds h r = rw (h, r, answers) refl

  stay-quiet :
      (fd : ℕ) (fds : List ℕ)
      → test fd ≡ false
      → stay test recv (fd ∷ fds) ≡ fd ∷ stay test recv fds
  unfolding is_gone
  stay-quiet fd fds h = rw (h, is_gone) refl

  stay-echo :
      (fd : ℕ) (fds : List ℕ) (bytes : Text)
      → recv fd ≡ some bytes
      → stay test recv (fd ∷ fds) ≡ fd ∷ stay test recv fds
  unfolding is_gone
  stay-echo fd fds bytes r = ground (arith, r)

  stay-close :
      (fd : ℕ) (fds : List ℕ)
      → test fd ≡ true
      → recv fd ≡ none
      → stay test recv (fd ∷ fds) ≡ stay test recv fds
  unfolding is_gone
  stay-close fd fds h r = ground (arith, h, r)

-- The loop over the entries behind those in `front` makes the answers and keeps what stays.
pub visit-answers :
    (listener fuel : ℕ) (a : Activity) (test : ℕ → Bool) (front : List Pollfd) (fds : List ℕ)
    → length fds < fuel
    → mem listener fds ≡ false
    → visit listener fuel a (length front) (front ++ map (entry test) fds)
      ≡ some (
        answers test (λ fd. recv_from a fd 1024) fds,
        front ++ map (entry test) (stay test (λ fd. recv_from a fd 1024) fds),
      )
unfolding answers after_calls
visit-answers listener zero a test front fds h l = absurd (omega arith)
visit-answers listener (suc fuel) a test front [] h l = visit-end listener fuel a front
visit-answers listener (suc fuel) a test front (fd ∷ fds) h l =
    let recv : ℕ → Option Text = λ fd. recv_from a fd 1024 in
    let p = entry test fd in
    let rest = map (entry test) fds in
    let other : (fd == listener) ≡ false = ground arith in
    let further : visit listener fuel a (suc (length front)) (front ++ p ∷ rest)
        ≡ some (answers test recv fds, front ++ p ∷ map (entry test) (stay test recv fds)) =
      advance listener fuel a front p rest
      ∙ visit-answers listener fuel a test (front ++ p ∷ []) fds (omega arith) (ground arith)
      ∙ ap (λ es. some (answers test recv fds, es)) (append_assoc front (p ∷ []) _) in
    elim (Bool-cases (test fd)) [
      | inr quiet ↦
          visit-step listener fuel a front p rest _ _ _ (pass-quiet listener a test fd _ _ quiet)
          ∙ ap (after_calls []) further
          ∙ ap₂ (λ calls fds. some (calls, front ++ map (entry test) fds))
              (sym (answers-quiet test recv fd fds quiet)) (sym (stay-quiet test recv fd fds quiet))
      | inl input ↦ elim (Option-cases (recv_from a fd 1024)) [
        | inr (bytes, r) ↦
            visit-step listener fuel a front p rest _ _ _
              (pass-echo listener a test fd _ _ bytes input other r)
            ∙ ap (after_calls (send fd bytes ∷ [])) further
            ∙ ap₂ (λ calls fds. some (calls, front ++ map (entry test) fds))
                (sym (answers-echo test recv fd fds bytes input r))
                (sym (stay-echo test recv fd fds bytes r))
        | inl r ↦
            visit-step listener fuel a front p rest _ _ _
              (pass-close listener a test fd _ _ input other r)
            ∙ ap (λ es. after_calls (close fd ∷ []) (visit listener fuel a (length front) es))
                (erase_at-length front p rest)
            ∙ ap (after_calls (close fd ∷ []))
                (visit-answers listener fuel a test front fds (omega arith) (ground arith))
            ∙ ap₂ (λ calls fds. some (calls, front ++ map (entry test) fds))
                (sym (answers-close test recv fd fds input r))
                (sym (stay-close test recv fd fds input r))
      ]
    ]
