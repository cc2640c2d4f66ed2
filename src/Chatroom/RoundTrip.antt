-- ===== src/Chatroom/RoundTrip.antt =====
-- Decoding the header that was encoded, and the body behind it: chatroom-app/message.hpp.
use build_your_own_stuff.Prelude.{
  ℕ, zero, suc, ◌+◌, ◌%◌, ◌^◌, ◌≤◌, ◌<◌, ◌≡◌, refl, ap, sym, ◌∙◌, Bool, true, false, Bool-cases,
  inl, inr, not, ◌&&◌, some, List, [], ◌∷◌, ◌++◌, append_assoc, arith, length, length-append,
  length-take, length-drop, take, drop, take-length-append, drop-length-append, Text, ltb, leb,
  ◌==◌, if◌then◌else◌,
}
use build_your_own_stuff.Chatroom.Message.{
  Message, max_bytes, header, overwrite, get_new_body_length, sprintf_4d, construct, atoi,
  until_nul, accept_header, decode_header, get_data, get_body,
}

-- A test that is run on each number up to a largest one, from the top.
each_up_to : (ℕ → Bool) → ℕ → Bool
each_up_to test zero = test 0
each_up_to test (suc top) =
    let lower = each_up_to test top in if test (suc top) then lower else false

each_up_to-holds :
    (test : ℕ → Bool) (top k : ℕ) → each_up_to test top ≡ true → k ≤ top → test k ≡ true
unfolding each_up_to
each_up_to-holds test zero k passed le = ap test (omega arith) ∙ passed
each_up_to-holds test (suc top) k passed le = elim (Bool-cases (leb k top)) [
  | inl lower ↦ each_up_to-holds test top k (ground arith) (ground arith)
  | inr last ↦ ap test (at_top (ground arith)) ∙ top_passed
]
  where
    at_top : top < k → k ≡ suc top
    at_top h = omega arith

    top_passed : test (suc top) ≡ true
    top_passed = ground arith

-- The header of a body length: four bytes, which atoi reads back.
header_reads : ℕ → Bool
header_reads n =
    length (sprintf_4d n) == 4
    && (not (atoi (until_nul (sprintf_4d n))).0 && (atoi (until_nul (sprintf_4d n))).1 == n)

header_table : each_up_to header_reads max_bytes ≡ true
unfolding each_up_to header_reads sprintf_4d atoi until_nul
header_table = refl

record Header (n : ℕ) : Type 0 where
  four : length (sprintf_4d n) ≡ 4
  sign : (atoi (until_nul (sprintf_4d n))).0 ≡ false
  size : (atoi (until_nul (sprintf_4d n))).1 ≡ n

read-Header : (n : ℕ) → n ≤ max_bytes → Header n
read-Header n h = facts (each_up_to-holds header_reads max_bytes n header_table h)
  where
    facts : header_reads n ≡ true → Header n
    facts e = unfold header_reads in (ground arith)

pub take-all {ℓ} : {A : Type ℓ} (xs : List A) (n : ℕ) → length xs ≤ n → take n xs ≡ xs
take-all [] zero h = refl
take-all [] (suc n) h = refl
take-all (x ∷ xs) zero h = absurd (omega arith)
take-all (x ∷ xs) (suc n) h = ap (◌∷◌ x) (take-all xs n (omega arith))

take-prefix : (n : ℕ) (s t : Text) → length s ≡ n → take n (s ++ t) ≡ s
take-prefix n s t h = rw (← h) (take-length-append s t)

drop-prefix : (n : ℕ) (s t : Text) → length s ≡ n → drop n (s ++ t) ≡ t
drop-prefix n s t h = rw (← h) (drop-length-append s t)

-- The body that a constructed message keeps.
abbrev pub kept : Text → Text
kept message = take (get_new_body_length (length message)) message

get_new_body_length-le : (n : ℕ) → (get_new_body_length n ≤ max_bytes) × (get_new_body_length n ≤ n)
unfolding get_new_body_length
get_new_body_length-le n = ground arith

pub length-kept : (message : Text) → length (kept message) ≡ get_new_body_length (length message)
length-kept message = omega (
  arith,
  length-take (get_new_body_length (length message)) message,
  get_new_body_length-le (length message),
)

accepted :
    (value : Bool × ℕ) (m : Message) (n : ℕ)
    → n ≤ max_bytes
    → m.body_length ≡ n
    → value.0 ≡ false
    → value.1 ≡ n
    → accept_header value m ≡ (m, true)
unfolding accept_header
accepted (sign, size) m n small same s z = ground arith

decoded :
    (m : Message) (n : ℕ)
    → n ≤ max_bytes
    → m.body_length ≡ n
    → take header m.contents ≡ sprintf_4d n
    → decode_header m ≡ (m, true)
decoded m n small same text =
    let h = read-Header n small in
    unfold decode_header in
    (accepted (atoi (until_nul (take header m.contents))) m n small same
      (ap (λ t. (atoi (until_nul t)).0) text ∙ h.sign)
      (ap (λ t. (atoi (until_nul t)).1) text ∙ h.size))

kept-take : (message : Text) → kept message ≡ take max_bytes message
unfolding get_new_body_length
kept-take message = elim (Bool-cases (ltb max_bytes (length message))) [
  | inl long ↦ rw long refl
  | inr short ↦ rw short (
      take-all message (length message) (omega arith)
      ∙ sym (take-all message max_bytes (ground arith)))
]

-- Cutting a header and a body out of what holds them in front.
cut_out :
    (n : ℕ) (h b r : Text)
    → length h ≡ header
    → length b ≡ n
    → take n (drop header (take (header + n) (h ++ (b ++ r)))) ≡ b
cut_out n h b r lh lb =
    ap (λ t. take n (drop header (take (header + n) t))) (sym (append_assoc h b r))
    ∙ ap (λ t. take n (drop header t))
        (take-prefix (header + n) (h ++ b) r (omega (arith, length-append h b)))
    ∙ ap (take n) (drop-prefix header h b lh)
    ∙ take-all b n (omega arith)

header_in_range : (n : ℕ) → n ≤ max_bytes → (header + n) % 2 ^ 32 ≡ header + n
header_in_range n small = omega arith

get_data-cut :
    (m : Message) (n : ℕ)
    → n ≤ max_bytes
    → m.body_length ≡ n
    → get_data m ≡ some (take (header + n) m.contents)
unfolding get_data
get_data-cut m n small same = rw (same, header_in_range n small, fits, get_data) refl
  where
    fits : leb (header + n) (header + max_bytes) ≡ true
    fits = ground arith

get_body-cut :
    (m : Message) (n : ℕ)
    → n ≤ max_bytes
    → m.body_length ≡ n
    → header ≤ length m.contents
    → get_body m ≡ some (take n (drop header (take (header + n) m.contents)))
unfolding get_body
get_body-cut m n small same long =
    rw (get_data-cut m n small same, enough, get_body)
      (ap (λ k. some (take k (drop header (take (header + n) m.contents)))) same)
  where
    enough : ltb (length (take (header + n) m.contents)) header ≡ false
    enough = ground (arith, length-take (header + n) m.contents)

module _ (memory message : Text) where
  abbrev size : ℕ
  size = get_new_body_length (length message)

  abbrev rest : Text
  rest = drop (header + length (kept message)) (overwrite 0 (take header (sprintf_4d size)) memory)

  -- Header, body, and what is left of the memory.
  contents-construct :
      (construct memory message).contents ≡ sprintf_4d size ++ (kept message ++ rest)
  unfolding construct
  contents-construct = ap (λ t. t ++ (kept message ++ rest)) front
    where
      four : length (sprintf_4d size) ≡ 4
      four = (read-Header size (get_new_body_length-le (length message)).0).four

      whole : take header (sprintf_4d size) ≡ sprintf_4d size
      whole = take-all (sprintf_4d size) header (omega (arith, four))

      front : take header (overwrite 0 (take header (sprintf_4d size)) memory) ≡ sprintf_4d size
      front =
          ap (λ t. take header (t ++ drop (0 + length (take header (sprintf_4d size))) memory))
            whole
          ∙ take-prefix header (sprintf_4d size)
              (drop (0 + length (take header (sprintf_4d size))) memory) four

  body_length-construct : (construct memory message).body_length ≡ size
  unfolding construct
  body_length-construct = refl

  header-construct : take header (construct memory message).contents ≡ sprintf_4d size
  header-construct =
      ap (take header) contents-construct
      ∙ take-prefix header (sprintf_4d size) (kept message ++ rest)
          (read-Header size (get_new_body_length-le (length message)).0).four

  -- The receiver's decoding accepts every message that was built from a string, and changes
  -- nothing: its header says what its length is.
  pub decode_header-construct :
      decode_header (construct memory message) ≡ (construct memory message, true)
  decode_header-construct =
      decoded (construct memory message) size (get_new_body_length-le (length message)).0
        body_length-construct header-construct

  -- The body of a message built from a string is its first 512 bytes.
  pub get_body-construct : get_body (construct memory message) ≡ some (take max_bytes message)
  get_body-construct =
      let small = (get_new_body_length-le (length message)).0 in
      let four = (read-Header size small).four in
      get_body-cut (construct memory message) size small body_length-construct (
        omega (
          arith,
          ap length contents-construct,
          length-append (sprintf_4d size) (kept message ++ rest),
          four,
        ))
      ∙ ap (λ t. some (take size (drop header (take (header + size) t)))) contents-construct
      ∙ ap some (
          cut_out size (sprintf_4d size) (kept message) rest (read-Header size small).four
            (length-kept message))
      ∙ ap some (kept-take message)

  -- The length that is stored for it is that of this body.
  pub take-body_length :
      take (construct memory message).body_length (take max_bytes message) ≡ take max_bytes message
  take-body_length =
      ap (λ k. take k (take max_bytes message)) body_length-construct
      ∙ ap (take size) (sym (kept-take message))
      ∙ take-all (kept message) size (omega (arith, length-kept message))
      ∙ kept-take message

length-overwrite :
    (offset : ℕ) (source target : Text)
    → offset + length source ≤ length target
    → length (overwrite offset source target) ≡ length target
unfolding overwrite
length-overwrite offset source target h = omega (
  arith,
  length-append (take offset target) (source ++ drop (offset + length source) target),
  length-append source (drop (offset + length source) target),
  length-take offset target,
  length-drop (offset + length source) target,
)

-- Building a message in a buffer of 516 bytes started within it.
pub length-construct :
    (memory message : Text)
    → length memory ≡ header + max_bytes
    → length (construct memory message).contents ≡ header + max_bytes
unfolding construct
length-construct memory message h =
    let small = get_new_body_length-le (length message) in
    let four = length-take header (sprintf_4d (size memory message)) in
    let first : length (overwrite 0 (take header (sprintf_4d (size memory message))) memory)
        ≡ header + max_bytes =
      length-overwrite 0 (take header (sprintf_4d (size memory message))) memory (omega arith)
      ∙ h in
    length-overwrite header (kept message)
      (overwrite 0 (take header (sprintf_4d (size memory message))) memory)
      (omega (arith, length-kept message))
    ∙ first
