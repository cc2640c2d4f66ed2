-- ===== src/Lox/Items.antt =====
-- What a program for the scanner of jlox_interpriter is written of.
use build_your_own_stuff.Prelude.{
  ℕ, ◌≤◌, ◌<◌, ◌≡◌, refl, ap, Bool, true, false, not, ◌||◌, ◌&&◌, none, List, [], map, text_eq, ◌∷◌,
  ◌++◌, length, Text, codes, arith, ◌==◌,
}
use build_your_own_stuff.Lox.Tokens.{
  TokenType, left_paren, right_paren, left_brace, right_brace, comma, dot, minus, plus, semicolon,
  slash, star, bang, bang_equal, equal, equal_equal, greater, greater_equal, less, less_equal,
  and_word, class_word, else_word, false_word, for_word, fun_word, if_word, nil_word, or_word,
  print_word, return_word, super_word, this_word, true_word, var_word, while_word, identifier,
  keyword_in, word_kind, is_digit, is_alpha, is_alpha_numeric, single, double_kind, is_space, span,
}

-- The marks of the language as they are written, and no text for the other types of token
unfoldable pub mark_text : TokenType → Text
mark_text left_paren = codes "("
mark_text right_paren = codes ")"
mark_text left_brace = codes "{"
mark_text right_brace = codes "}"
mark_text comma = codes ","
mark_text dot = codes "."
mark_text minus = codes "-"
mark_text plus = codes "+"
mark_text semicolon = codes ";"
mark_text slash = codes "/"
mark_text star = codes "*"
mark_text bang = codes "!"
mark_text bang_equal = codes "!="
mark_text equal = codes "="
mark_text equal_equal = codes "=="
mark_text greater = codes ">"
mark_text greater_equal = codes ">="
mark_text less = codes "<"
mark_text less_equal = codes "<="
mark_text _ = []

-- The reserved words of the language, and no text for the other types of token
unfoldable pub keyword_text : TokenType → Text
keyword_text and_word = codes "and"
keyword_text class_word = codes "class"
keyword_text else_word = codes "else"
keyword_text false_word = codes "false"
keyword_text fun_word = codes "fun"
keyword_text for_word = codes "for"
keyword_text if_word = codes "if"
keyword_text nil_word = codes "nil"
keyword_text or_word = codes "or"
keyword_text print_word = codes "print"
keyword_text return_word = codes "return"
keyword_text super_word = codes "super"
keyword_text this_word = codes "this"
keyword_text true_word = codes "true"
keyword_text var_word = codes "var"
keyword_text while_word = codes "while"
keyword_text _ = []

abbrev pub reserved : List TokenType
reserved =
    and_word ∷ class_word ∷ else_word ∷ false_word ∷ for_word ∷ fun_word ∷ if_word ∷ nil_word
    ∷ or_word ∷ print_word ∷ return_word ∷ super_word ∷ this_word ∷ true_word ∷ var_word
    ∷ while_word ∷ []

abbrev pub is_text_of : List TokenType → Text → Bool
is_text_of [] w = false
is_text_of (kind ∷ kinds) w = let rest = is_text_of kinds w in text_eq (keyword_text kind) w || rest

abbrev pub is_keyword : Text → Bool
is_keyword w = is_text_of reserved w

-- What a program is written of: marks, words, numbers and strings
pub data Item : Type 0 where
  mark : TokenType → Item
  keyword : TokenType → Item
  word : Text → Item
  integer : Text → Item
  decimal : Text → Text → Item
  quoted : Text → Item

abbrev pub item_text : Item → Text
item_text (mark kind) = mark_text kind
item_text (keyword kind) = keyword_text kind
item_text (word w) = w
item_text (integer digits) = digits
item_text (decimal digits fraction) = digits ++ b'.' ∷ fraction
item_text (quoted body) = b'"' ∷ (body ++ b'"' ∷ [])

abbrev pub All : (ℕ → Bool) → Text → Type 0
All test [] = 0 ≤ 0
All test (c ∷ cs) = (test c ≡ true) × All test cs

-- Its parts are of the characters that the language has for them.
abbrev pub IsItem : Item → Type 0
IsItem (mark kind) = 0 < length (mark_text kind)
IsItem (keyword kind) = 0 < length (keyword_text kind)
IsItem (word []) = 1 ≤ 0
IsItem (word (c ∷ cs)) =
    (is_alpha c ≡ true) × All is_alpha_numeric cs × (is_keyword (c ∷ cs) ≡ false)
IsItem (integer digits) = (0 < length digits) × All is_digit digits
IsItem (decimal digits fraction) =
    (0 < length digits) × All is_digit digits × (0 < length fraction) × All is_digit fraction
IsItem (quoted body) = All (λ c. not (c == b'"')) body

pub span-All :
    (test : ℕ → Bool) (front : Text) (c : ℕ) (rest : Text)
    → All test front
    → test c ≡ false
    → span test (front ++ c ∷ rest) ≡ (front, c ∷ rest)
span-All test [] c rest all stops = rw stops refl
span-All test (d ∷ front) c rest all stops =
    rw all.0 (ap (λ parts. (d ∷ parts.0, parts.1)) (span-All test front c rest all.1 stops))

-- No letter and no digit is a mark, a space or a quote.
pub letter-single : (c : ℕ) → is_alpha_numeric c ≡ true → single c ≡ none
unfolding single
letter-single c e = ground (arith, e)

pub letter-double_kind : (c : ℕ) → is_alpha_numeric c ≡ true → double_kind c ≡ none
unfolding double_kind
letter-double_kind c e = ground (arith, e)

pub alpha_only :
    (c : ℕ)
    → is_alpha c ≡ true
    → ((c == b'/') ≡ false)
      × (is_space c ≡ false)
      × ((c == 10) ≡ false)
      × ((c == b'"') ≡ false)
      × (is_digit c ≡ false)
alpha_only c e =
    (ground (arith, e), ground (arith, e), ground (arith, e), ground (arith, e), ground (arith, e))

pub digit_only :
    (c : ℕ)
    → is_digit c ≡ true
    → ((c == b'/') ≡ false) × (is_space c ≡ false) × ((c == 10) ≡ false) × ((c == b'"') ≡ false)
digit_only c e = (ground (arith, e), ground (arith, e), ground (arith, e), ground (arith, e))

pub word_kind-keyword_text :
    (kind : TokenType) → 0 < length (keyword_text kind) → word_kind (keyword_text kind) ≡ kind
unfolding word_kind keyword_text text_eq
word_kind-keyword_text and_word h = refl
word_kind-keyword_text class_word h = refl
word_kind-keyword_text else_word h = refl
word_kind-keyword_text false_word h = refl
word_kind-keyword_text for_word h = refl
word_kind-keyword_text fun_word h = refl
word_kind-keyword_text if_word h = refl
word_kind-keyword_text nil_word h = refl
word_kind-keyword_text or_word h = refl
word_kind-keyword_text print_word h = refl
word_kind-keyword_text return_word h = refl
word_kind-keyword_text super_word h = refl
word_kind-keyword_text this_word h = refl
word_kind-keyword_text true_word h = refl
word_kind-keyword_text var_word h = refl
word_kind-keyword_text while_word h = refl
word_kind-keyword_text _ h = absurd (omega arith)

keyword_in-other :
    (kinds : List TokenType) (w : Text)
    → is_text_of kinds w ≡ false
    → keyword_in (map (λ kind. (keyword_text kind, kind)) kinds) w ≡ identifier
keyword_in-other [] w e = refl
keyword_in-other (kind ∷ kinds) w e =
    ground (arith, e, keyword_in-other kinds w (ground (arith, e)))

pub word_kind-other : (w : Text) → is_keyword w ≡ false → word_kind w ≡ identifier
unfolding word_kind keyword_text
word_kind-other w e = keyword_in-other reserved w e

-- A text that starts with a letter and goes on with letters and digits
abbrev pub are_alpha_numeric : Text → Bool
are_alpha_numeric [] = true
are_alpha_numeric (c ∷ cs) = let rest = are_alpha_numeric cs in is_alpha_numeric c && rest

abbrev pub is_word : Text → Bool
is_word [] = false
is_word (c ∷ cs) = is_alpha c && are_alpha_numeric cs

pub are_alpha_numeric-All : (cs : Text) → are_alpha_numeric cs ≡ true → All is_alpha_numeric cs
are_alpha_numeric-All [] e = omega arith
are_alpha_numeric-All (c ∷ cs) e = (ground (arith, e), are_alpha_numeric-All cs (ground (arith, e)))

pub keyword_text-is_word :
    (kind : TokenType) → 0 < length (keyword_text kind) → is_word (keyword_text kind) ≡ true
unfolding keyword_text
keyword_text-is_word and_word h = refl
keyword_text-is_word class_word h = refl
keyword_text-is_word else_word h = refl
keyword_text-is_word false_word h = refl
keyword_text-is_word for_word h = refl
keyword_text-is_word fun_word h = refl
keyword_text-is_word if_word h = refl
keyword_text-is_word nil_word h = refl
keyword_text-is_word or_word h = refl
keyword_text-is_word print_word h = refl
keyword_text-is_word return_word h = refl
keyword_text-is_word super_word h = refl
keyword_text-is_word this_word h = refl
keyword_text-is_word true_word h = refl
keyword_text-is_word var_word h = refl
keyword_text-is_word while_word h = refl
keyword_text-is_word _ h = absurd (omega arith)
