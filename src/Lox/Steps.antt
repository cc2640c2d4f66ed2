-- ===== src/Lox/Steps.antt =====
-- What scanToken of jlox_interpriter/src/main/java/lox/Scanner.java makes of a lexeme with a space behind it.
use build_your_own_stuff.Prelude.{
  ℕ, suc, ◌+◌, ◌-◌, ◌<◌, ◌≡◌, refl, ap, ap₂, ◌∙◌, Bool, true, false, not, List, [], ◌∷◌, ◌++◌,
  append_assoc, length, length-append, take, take-length-append, Text, arith, ◌==◌, if◌then◌else◌,
}
use build_your_own_stuff.Lox.Tokens.{
  identifier, TokenType, left_paren, right_paren, left_brace, right_brace, comma, dot, minus, plus,
  semicolon, slash, star, bang, bang_equal, equal, equal_equal, greater, greater_equal, less,
  less_equal, string, number, null, text, double, Token, Fault, is_digit, is_alpha,
  is_alpha_numeric, word_kind, single, double_kind, newlines, fraction_behind,
}
use build_your_own_stuff.Lox.Scanner.{
  Scanner, add_token, close_string, string_token, take_fraction, end_number, scan_char,
}
use build_your_own_stuff.Lox.Ends.{scan_kind}
use build_your_own_stuff.Lox.Items.{
  keyword, keyword_text, is_keyword, is_word, word_kind-keyword_text, word_kind-other,
  are_alpha_numeric-All, keyword_text-is_word, mark_text, Item, mark, word, integer, decimal,
  quoted, item_text, All, span-All, letter-single, letter-double_kind, alpha_only, digit_only,
}

module _ {Double : Type 0} (parse_double : Text → Double) where
  -- The token of an item that ends on a line
  abbrev pub item_token : Item → ℕ → Token Double
  item_token (mark kind) line = record {
    kind = kind;
    lexeme = mark_text kind;
    literal = null;
    line = line;
  }
  item_token (keyword kind) line = record {
    kind = kind;
    lexeme = keyword_text kind;
    literal = null;
    line = line;
  }
  item_token (word w) line = record { kind = identifier; lexeme = w; literal = null; line = line }
  item_token (integer digits) line = record {
    kind = number;
    lexeme = digits;
    literal = double (parse_double digits);
    line = line;
  }
  item_token (decimal digits fraction) line =
      let all = digits ++ b'.' ∷ fraction in
      record { kind = number; lexeme = all; literal = double (parse_double all); line = line }
  item_token (quoted body) line = record {
    kind = string;
    lexeme = b'"' ∷ (body ++ b'"' ∷ []);
    literal = text body;
    line = line;
  }

  abbrev word_token : Text → ℕ → Token Double
  word_token w line = record { kind = word_kind w; lexeme = w; literal = null; line = line }

  -- The scanner with the first character of a text taken
  abbrev pub at : Text → Text → ℕ → List (Token Double) → List (ℕ × Fault) → Scanner Double
  at taken rest line tokens faults = record {
    taken = taken;
    rest = rest;
    line = line;
    tokens = tokens;
    faults = faults;
  }

  -- scanToken on a text and a space, from its first character
  abbrev pub scan_text : Text → Text → ℕ → List (Token Double) → List (ℕ × Fault) → Scanner Double
  scan_text [] rest line tokens faults = at [] rest line tokens faults
  scan_text (c ∷ cs) rest line tokens faults =
      scan_char parse_double c (at (c ∷ []) (cs ++ b' ' ∷ rest) line tokens faults)

  abbrev pub item_end : Item → Text → ℕ → List (Token Double) → List (ℕ × Fault) → Scanner Double
  item_end item rest line tokens faults =
      let end_line = line + newlines (item_text item) in
      at (item_text item) (b' ' ∷ rest) end_line (tokens ++ item_token item end_line ∷ []) faults

  pub mark_scanned :
      (kind : TokenType) (rest : Text) (line : ℕ) (tokens : List (Token Double))
      (faults : List (ℕ × Fault))
      → 0 < length (mark_text kind)
      → scan_text (mark_text kind) rest line tokens faults
        ≡ at (mark_text kind) (b' ' ∷ rest) line (tokens ++ item_token (mark kind) line ∷ []) faults
  unfolding mark_text single double_kind
  mark_scanned left_paren rest line tokens faults h = refl
  mark_scanned right_paren rest line tokens faults h = refl
  mark_scanned left_brace rest line tokens faults h = refl
  mark_scanned right_brace rest line tokens faults h = refl
  mark_scanned comma rest line tokens faults h = refl
  mark_scanned dot rest line tokens faults h = refl
  mark_scanned minus rest line tokens faults h = refl
  mark_scanned plus rest line tokens faults h = refl
  mark_scanned semicolon rest line tokens faults h = refl
  mark_scanned slash rest line tokens faults h = refl
  mark_scanned star rest line tokens faults h = refl
  mark_scanned bang rest line tokens faults h = refl
  mark_scanned bang_equal rest line tokens faults h = refl
  mark_scanned equal rest line tokens faults h = refl
  mark_scanned equal_equal rest line tokens faults h = refl
  mark_scanned greater rest line tokens faults h = refl
  mark_scanned greater_equal rest line tokens faults h = refl
  mark_scanned less rest line tokens faults h = refl
  mark_scanned less_equal rest line tokens faults h = refl
  mark_scanned _ rest line tokens faults h = absurd (omega arith)

  pub word_scanned :
      (c : ℕ) (cs rest : Text) (line : ℕ) (tokens : List (Token Double)) (faults : List (ℕ × Fault))
      → is_alpha c ≡ true
      → All is_alpha_numeric cs
      → scan_text (c ∷ cs) rest line tokens faults
        ≡ at (c ∷ cs) (b' ' ∷ rest) line (tokens ++ word_token (c ∷ cs) line ∷ []) faults
  word_scanned c cs rest line tokens faults first all =
      let s = at (c ∷ []) (cs ++ b' ' ∷ rest) line tokens faults in
      let other = alpha_only c first in
      ap₂ (λ one two. scan_kind parse_double one two c s) (letter-single c (ground (arith, first)))
        (letter-double_kind c (ground (arith, first)))
      ∙ rw (other.0, other.1, other.2, other.3, other.4, first)
          (ap
            (λ parts.
              add_token (word_kind (c ∷ parts.0)) null
                (at (c ∷ parts.0) parts.1 line tokens faults))
            (span-All is_alpha_numeric cs b' ' rest all refl))

  is_word-scanned :
      (w rest : Text) (line : ℕ) (tokens : List (Token Double)) (faults : List (ℕ × Fault))
      → is_word w ≡ true
      → scan_text w rest line tokens faults
        ≡ at w (b' ' ∷ rest) line (tokens ++ word_token w line ∷ []) faults
  is_word-scanned [] rest line tokens faults e = absurd (ground (arith, e))
  is_word-scanned (c ∷ cs) rest line tokens faults e =
      word_scanned c cs rest line tokens faults (ground (arith, e))
        (are_alpha_numeric-All cs (ground (arith, e)))

  pub identifier_scanned :
      (c : ℕ) (cs rest : Text) (line : ℕ) (tokens : List (Token Double)) (faults : List (ℕ × Fault))
      → is_alpha c ≡ true
      → All is_alpha_numeric cs
      → is_keyword (c ∷ cs) ≡ false
      → scan_text (c ∷ cs) rest line tokens faults
        ≡ at (c ∷ cs) (b' ' ∷ rest) line (tokens ++ item_token (word (c ∷ cs)) line ∷ []) faults
  identifier_scanned c cs rest line tokens faults first all other =
      word_scanned c cs rest line tokens faults first all
      ∙ ap
          (λ kind.
            at (c ∷ cs) (b' ' ∷ rest) line
              (tokens ++ record { kind = kind; lexeme = c ∷ cs; literal = null; line = line } ∷ [])
              faults)
          (word_kind-other (c ∷ cs) other)

  pub keyword_scanned :
      (kind : TokenType) (rest : Text) (line : ℕ) (tokens : List (Token Double))
      (faults : List (ℕ × Fault))
      → 0 < length (keyword_text kind)
      → scan_text (keyword_text kind) rest line tokens faults
        ≡ at
            (keyword_text kind)
            (b' ' ∷ rest)
            line
            (tokens ++ item_token (keyword kind) line ∷ [])
            faults
  keyword_scanned kind rest line tokens faults h =
      is_word-scanned (keyword_text kind) rest line tokens faults (keyword_text-is_word kind h)
      ∙ ap
          (λ k.
            at (keyword_text kind) (b' ' ∷ rest) line
              (tokens
                ++ record { kind = k; lexeme = keyword_text kind; literal = null; line = line }
                  ∷ [])
              faults)
          (word_kind-keyword_text kind h)

  -- A number up to what its first digits stop at
  number_first :
      (c : ℕ) (cs behind : Text) (d line : ℕ) (tokens : List (Token Double))
      (faults : List (ℕ × Fault))
      → is_digit c ≡ true
      → All is_digit cs
      → is_digit d ≡ false
      → scan_char parse_double c (at (c ∷ []) (cs ++ d ∷ behind) line tokens faults)
        ≡ end_number parse_double (
            let s = at (c ∷ cs) (d ∷ behind) line tokens faults in
            if fraction_behind (d ∷ behind) then take_fraction s else s)
  number_first c cs behind d line tokens faults first all stops =
      let s = at (c ∷ []) (cs ++ d ∷ behind) line tokens faults in
      let other = digit_only c first in
      ap₂ (λ one two. scan_kind parse_double one two c s) (letter-single c (ground (arith, first)))
        (letter-double_kind c (ground (arith, first)))
      ∙ rw (other.0, other.1, other.2, other.3, first)
          (ap
            (λ parts. end_number parse_double (
              let s' = at (c ∷ parts.0) parts.1 line tokens faults in
              if fraction_behind parts.1 then take_fraction s' else s'))
            (span-All is_digit cs d behind all stops))

  no_fraction : (rest : Text) → fraction_behind (b' ' ∷ rest) ≡ false
  no_fraction [] = refl
  no_fraction (d ∷ rest) = refl

  pub integer_scanned :
      (c : ℕ) (cs rest : Text) (line : ℕ) (tokens : List (Token Double)) (faults : List (ℕ × Fault))
      → is_digit c ≡ true
      → All is_digit cs
      → scan_text (c ∷ cs) rest line tokens faults
        ≡ at (c ∷ cs) (b' ' ∷ rest) line (tokens ++ item_token (integer (c ∷ cs)) line ∷ []) faults
  integer_scanned c cs rest line tokens faults first all =
      number_first c cs rest b' ' line tokens faults first all refl ∙ rw (no_fraction rest) refl

  pub decimal_scanned :
      (c d : ℕ) (cs ds rest : Text) (line : ℕ) (tokens : List (Token Double))
      (faults : List (ℕ × Fault))
      → is_digit c ≡ true
      → All is_digit cs
      → is_digit d ≡ true
      → All is_digit ds
      → scan_text (c ∷ (cs ++ b'.' ∷ d ∷ ds)) rest line tokens faults
        ≡ at
            (c ∷ (cs ++ b'.' ∷ d ∷ ds))
            (b' ' ∷ rest)
            line
            (tokens ++ item_token (decimal (c ∷ cs) (d ∷ ds)) line ∷ [])
            faults
  decimal_scanned c d cs ds rest line tokens faults first all second all' =
      ap (λ behind. scan_char parse_double c (at (c ∷ []) behind line tokens faults))
        (append_assoc cs (b'.' ∷ d ∷ ds) (b' ' ∷ rest))
      ∙ number_first c cs (d ∷ ds ++ b' ' ∷ rest) b'.' line tokens faults first all refl
      ∙ rw second (
          ap
            (λ parts.
              end_number parse_double
                (at (((c ∷ cs) ++ b'.' ∷ []) ++ d ∷ parts.0) parts.1 line tokens faults))
            (span-All is_digit ds b' ' rest all' refl)
          ∙ ap (λ taken. end_number parse_double (at taken (b' ' ∷ rest) line tokens faults))
              (append_assoc (c ∷ cs) (b'.' ∷ []) (d ∷ ds)))

  pub quoted_scanned :
      (body rest : Text) (line : ℕ) (tokens : List (Token Double)) (faults : List (ℕ × Fault))
      → All (λ c. not (c == b'"')) body
      → scan_text (b'"' ∷ (body ++ b'"' ∷ [])) rest line tokens faults
        ≡ at
            (b'"' ∷ (body ++ b'"' ∷ []))
            (b' ' ∷ rest)
            (line + newlines body)
            (tokens ++ item_token (quoted body) (line + newlines body) ∷ [])
            faults
  unfolding single double_kind
  quoted_scanned body rest line tokens faults all =
      let test : ℕ → Bool = λ c. not (c == b'"') in
      ap (λ behind. string_token (at (b'"' ∷ []) behind line tokens faults))
        (append_assoc body (b'"' ∷ []) (b' ' ∷ rest))
      ∙ ap
          (λ parts.
            close_string (at (b'"' ∷ parts.0) parts.1 (line + newlines parts.0) tokens faults))
          (span-All test body b'"' (b' ' ∷ rest) all refl)
      ∙ ap
          (λ value.
            add_token string (text value)
              (at (b'"' ∷ (body ++ b'"' ∷ [])) (b' ' ∷ rest) (line + newlines body) tokens faults))
          (ap (λ n. take n (body ++ b'"' ∷ [])) {x = suc (length (body ++ b'"' ∷ [])) - 2}
              {y = length body} (omega (arith, length-append body (b'"' ∷ [])))
            ∙ take-length-append body (b'"' ∷ []))
