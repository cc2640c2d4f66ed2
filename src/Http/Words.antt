-- ===== src/Http/Words.antt =====
-- How the words of a request line are read: `ss >> method >> path` of http_server/handler/RequestHandler.cpp.
use build_your_own_stuff.Prelude.{◌≡◌, refl, ap, false, [], ◌∷◌, ◌++◌, Text}
use build_your_own_stuff.Http.Request.{is_space, skip_spaces, take_word, drop_word, request_path}

-- A word: some text with no white space in it.
abbrev pub NoSpace : Text → Type 0
NoSpace [] = Unit {0}
NoSpace (c ∷ cs) = (is_space c ≡ false) × NoSpace cs

abbrev pub IsWord : Text → Type 0
IsWord [] = ⊥
IsWord (c ∷ cs) = NoSpace (c ∷ cs)

take_word-append : (w rest : Text) → NoSpace w → take_word (w ++ 32 ∷ rest) ≡ w
unfolding take_word is_space
take_word-append [] rest h = refl
take_word-append (c ∷ w) rest h = rw h.0 (ap (◌∷◌ c) (take_word-append w rest h.1))

drop_word-append : (w rest : Text) → NoSpace w → drop_word (w ++ 32 ∷ rest) ≡ 32 ∷ rest
unfolding drop_word is_space
drop_word-append [] rest h = refl
drop_word-append (c ∷ w) rest h = rw h.0 (drop_word-append w rest h.1)

skip_spaces-word : (w rest : Text) → IsWord w → skip_spaces (w ++ rest) ≡ w ++ rest
unfolding skip_spaces
skip_spaces-word [] rest h = absurd h
skip_spaces-word (c ∷ w) rest h = rw h.0 refl

skip_spaces-space : (rest : Text) → skip_spaces (32 ∷ rest) ≡ skip_spaces rest
unfolding skip_spaces is_space
skip_spaces-space rest = refl

IsWord-NoSpace : (w : Text) → IsWord w → NoSpace w
IsWord-NoSpace [] h = tt
IsWord-NoSpace (c ∷ w) h = h

-- The path of a request line is the second word of it, whatever the method is.
pub request_path-words :
    (method path rest : Text)
    → IsWord method
    → IsWord path
    → request_path (method ++ 32 ∷ (path ++ 32 ∷ rest)) ≡ path
unfolding request_path
request_path-words method path rest m p =
    rw
      (
        skip_spaces-word method (32 ∷ (path ++ 32 ∷ rest)) m,
        drop_word-append method (path ++ 32 ∷ rest) (IsWord-NoSpace method m),
        skip_spaces-space (path ++ 32 ∷ rest),
        skip_spaces-word path (32 ∷ rest) p,
      )
      (take_word-append path rest (IsWord-NoSpace path p))
