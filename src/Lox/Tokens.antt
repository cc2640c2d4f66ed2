-- ===== src/Lox/Tokens.antt =====
-- The tokens and characters of jlox_interpriter/src/main/java/lox: TokenType.java, Token.java, and the tests and
-- tables of Scanner.java.
use build_your_own_stuff.Prelude.{
  ℕ, suc, Bool, false, ◌&&◌, ◌||◌, Option, none, some, List, [], ◌∷◌, Text, codes, text_eq, leb,
  ◌==◌, if◌then◌else◌,
}

pub data TokenType : Type 0 where
  left_paren right_paren left_brace right_brace comma dot minus plus semicolon slash star :
      TokenType
  bang bang_equal equal equal_equal greater greater_equal less less_equal : TokenType
  identifier string number : TokenType
  and_word class_word else_word false_word fun_word for_word if_word nil_word or_word print_word
        return_word super_word this_word true_word var_word while_word :
      TokenType
  eof : TokenType

-- The literal of a token, with null for most of them
pub data Literal (Double : Type 0) : Type 0 where
  null : Literal Double
  text : Text → Literal Double
  double : Double → Literal Double

pub record Token (Double : Type 0) : Type 0 where
  pub kind : TokenType
  pub lexeme : Text
  pub literal : Literal Double
  pub line : ℕ

pub data Fault : Type 0 where
  unexpected_character unterminated_string : Fault

abbrev pub is_digit : ℕ → Bool
is_digit c = leb b'0' c && leb c b'9'

abbrev pub is_alpha : ℕ → Bool
is_alpha c = (leb b'A' c && leb c b'Z') || (leb b'a' c && leb c b'z') || c == b'_'

abbrev pub is_alpha_numeric : ℕ → Bool
is_alpha_numeric c = is_alpha c || is_digit c

abbrev pub keyword_table : List (Text × TokenType)
keyword_table =
    (codes "and", and_word)
    ∷ (codes "class", class_word)
    ∷ (codes "else", else_word)
    ∷ (codes "false", false_word)
    ∷ (codes "for", for_word)
    ∷ (codes "fun", fun_word)
    ∷ (codes "if", if_word)
    ∷ (codes "nil", nil_word)
    ∷ (codes "or", or_word)
    ∷ (codes "print", print_word)
    ∷ (codes "return", return_word)
    ∷ (codes "super", super_word)
    ∷ (codes "this", this_word)
    ∷ (codes "true", true_word)
    ∷ (codes "var", var_word)
    ∷ (codes "while", while_word)
    ∷ []

-- keywords.get, with IDENTIFIER where it is null
abbrev pub keyword_in : List (Text × TokenType) → Text → TokenType
keyword_in [] word = identifier
keyword_in ((name, kind) ∷ table) word =
    let rest = keyword_in table word in if text_eq name word then kind else rest

unfoldable pub word_kind : Text → TokenType
word_kind word = keyword_in keyword_table word

-- The tokens of one character
unfoldable pub single : ℕ → Option TokenType
single c =
    if c == b'('
    then some left_paren
    else if c == b')'
    then some right_paren
    else if c == b'{'
    then some left_brace
    else if c == b'}'
    then some right_brace
    else if c == b','
    then some comma
    else if c == b'.'
    then some dot
    else if c == b'-'
    then some minus
    else if c == b'+'
    then some plus
    else if c == b';'
    then some semicolon
    else if c == b'*'
    then some star
    else none

-- The tokens that '=' makes longer, and themselves
unfoldable pub double_kind : ℕ → Option (TokenType × TokenType)
double_kind c =
    if c == b'!'
    then some (bang_equal, bang)
    else if c == b'='
    then some (equal_equal, equal)
    else if c == b'<'
    then some (less_equal, less)
    else if c == b'>'
    then some (greater_equal, greater)
    else none

abbrev pub is_space : ℕ → Bool
is_space c = c == b' ' || c == 13 || c == 9

-- How far a loop of peek and advance goes, and what is left
abbrev pub span : (ℕ → Bool) → Text → Text × Text
span test [] = ([], [])
span test (c ∷ cs) =
    let more = span test cs in if test c then (c ∷ more.0, more.1) else ([], c ∷ cs)

abbrev pub newlines : Text → ℕ
newlines [] = 0
newlines (c ∷ cs) = let more = newlines cs in if c == 10 then suc more else more

-- Whether peek is a dot and peekNext a digit
abbrev pub fraction_behind : Text → Bool
fraction_behind (c ∷ d ∷ rest) = c == b'.' && is_digit d
fraction_behind _ = false
