-- ===== src/MultiClient/Buffer.antt =====
-- The array `buffer` of handleClient in cpp/socket_programming/multi_client_server/server.cpp.
use build_your_own_stuff.Prelude.{
  ℕ, suc, ◌≤◌, ◌<◌, ◌≡◌, refl, ap, ◌∙◌, true, false, Bool-cases, inl, inr, none, some, [], ◌∷◌,
  ◌++◌, length, length-append, length-drop, length-replicate, drop, take-length-append, Text, arith,
  ltb, leb, ◌==◌, if◌then◌else◌,
}
use build_your_own_stuff.MultiClient.Server.{
  Server, buffer_size, new_buffer, fill, put_nul, then_nul, received, receive_body, c_string,
  handle_message, overflows,
}

c_string-nul : (t rest : Text) → c_string (t ++ 0 ∷ rest) ≡ c_string t
unfolding c_string
c_string-nul [] rest = refl
c_string-nul (c ∷ t) rest =
    ap (λ (more : Text). if c == 0 then [] else c ∷ more) (c_string-nul t rest)

filled_buffer :
    (bytes : Text)
    → length bytes < buffer_size
    → (rest : Text) × (then_nul (length bytes) (fill bytes new_buffer) ≡ some (bytes ++ 0 ∷ rest))
unfolding fill put_nul
filled_buffer bytes h =
    let size = length-replicate {A = ℕ} buffer_size 0 in
    let behind = drop (length bytes) new_buffer in
    let fits : leb (length bytes) (length new_buffer) ≡ true = ground (arith, size) in
    let inside : ltb (length bytes) (length (bytes ++ behind)) ≡ true =
      ground (arith, length-append bytes behind, length-drop (length bytes) new_buffer, size) in
    let stored : fill bytes new_buffer ≡ some (bytes ++ behind) = rw fits refl in
    (
      drop (suc (length bytes)) (bytes ++ behind),
      ap (then_nul (length bytes)) stored
          ∙ rw inside (
              ap (λ (front : Text). some (front ++ 0 ∷ drop (suc (length bytes)) (bytes ++ behind)))
                (take-length-append bytes behind)),
    )

full_buffer :
    (bytes : Text)
    → buffer_size ≤ length bytes
    → then_nul (length bytes) (fill bytes new_buffer) ≡ none
unfolding fill put_nul
full_buffer bytes h =
    let size = length-replicate {A = ℕ} buffer_size 0 in
    let behind = drop (length bytes) new_buffer in
    elim (Bool-cases (leb (length bytes) (length new_buffer))) [
      | inl fits ↦
          let outside : ltb (length bytes) (length (bytes ++ behind)) ≡ false =
            ground
              (arith, length-append bytes behind, length-drop (length bytes) new_buffer, size) in
          let stored : fill bytes new_buffer ≡ some (bytes ++ behind) = rw fits refl in
          ap (then_nul (length bytes)) stored ∙ rw outside refl
      | inr over ↦
          let refused : fill bytes new_buffer ≡ none = rw over refl in
          ap (then_nul (length bytes)) refused
    ]

-- What is received is handled up to its first NUL, where there is room for it and for one.
pub receive_body-if :
    (bytes : Text) (fd : ℕ) (s : Server)
    → receive_body (some bytes) fd s
      ≡ (if ltb (length bytes) buffer_size then handle_message (c_string bytes) fd s else overflows)
unfolding receive_body
receive_body-if bytes fd s = elim (Bool-cases (ltb (length bytes) buffer_size)) [
  | inl fits ↦
      let filled = filled_buffer bytes (ground arith) in
      rw fits (
        ap (λ o. received o fd s) filled.1
        ∙ ap (λ t. handle_message t fd s) (c_string-nul bytes filled.0))
  | inr big ↦ rw big (ap (λ o. received o fd s) (full_buffer bytes (ground arith)))
]
