-- ===== src/Lox/Scanner.antt =====
-- jlox_interpriter/src/main/java/lox/Scanner.java, with the errors that Lox.java reports. Double.parseDouble is
-- an argument. The source and its positions are kept as the text from start to current and the text behind it.
use build_your_own_stuff.Prelude.{
  ℕ, zero, suc, ◌+◌, ◌-◌, Bool, not, Option, none, some, List, [], ◌∷◌, ◌++◌, length, take, drop,
  Text, ◌==◌, if◌then◌else◌,
}
use build_your_own_stuff.Lox.Tokens.{
  TokenType, eof, Literal, null, text, double, Token, Fault, is_digit, is_alpha, is_alpha_numeric,
  word_kind, single, double_kind, is_space, span, newlines, fraction_behind, slash, string, number,
  unterminated_string, unexpected_character,
}

pub record Scanner (Double : Type 0) : Type 0 where
  pub taken : Text
  pub rest : Text
  pub line : ℕ
  pub tokens : List (Token Double)
  pub faults : List (ℕ × Fault)

module _ {Double : Type 0} where
  abbrev pub start : Text → Scanner Double
  start source = record { taken = []; rest = source; line = 1; tokens = []; faults = [] }

  abbrev pub end_token : ℕ → Token Double
  end_token line = record { kind = eof; lexeme = []; literal = null; line = line }

  abbrev pub add_token : TokenType → Literal Double → Scanner Double → Scanner Double
  add_token kind literal s = record s {
    tokens =
        s.tokens ++ record { kind = kind; lexeme = s.taken; literal = literal; line = s.line } ∷ [];
  }

  abbrev pub report : Fault → Scanner Double → Scanner Double
  report fault s = record s { faults = s.faults ++ (s.line, fault) ∷ [] }

  abbrev pub advance_while : (ℕ → Bool) → Scanner Double → Scanner Double
  advance_while test s = record s {
    taken = s.taken ++ (span test s.rest).0;
    rest = (span test s.rest).1;
  }

  -- match, of which the caller goes on with or without the character
  abbrev pub match_next : ℕ → Scanner Double → Option (Scanner Double)
  match_next expected s = elim s.rest [
    | [] ↦ none
    | c ∷ rest ↦
        if c == expected then some (record s { taken = s.taken ++ c ∷ []; rest = rest }) else none
  ]

  abbrev pub double_token : TokenType × TokenType → Scanner Double → Scanner Double
  double_token (long, short) s = elim (match_next b'=' s) [
    | none ↦ add_token short null s
    | some s' ↦ add_token long null s'
  ]

  abbrev pub slash_token : Scanner Double → Scanner Double
  slash_token s = elim (match_next b'/' s) [
    | none ↦ add_token slash null s
    | some s' ↦ advance_while (λ c. not (c == 10)) s'
  ]

  abbrev pub close_string : Scanner Double → Scanner Double
  close_string s = elim s.rest [
    | [] ↦ report unterminated_string s
    | c ∷ rest ↦
        let taken = s.taken ++ c ∷ [] in
        add_token string (text (take (length taken - 2) (drop 1 taken)))
          (record s { taken = taken; rest = rest })
  ]

  abbrev pub string_token : Scanner Double → Scanner Double
  string_token s =
      let to_quote = advance_while (λ c. not (c == b'"')) s in
      close_string
        (record to_quote { line = s.line + newlines (span (λ c. not (c == b'"')) s.rest).0 })

  abbrev pub identifier_token : Scanner Double → Scanner Double
  identifier_token s =
      let s' = advance_while is_alpha_numeric s in add_token (word_kind s'.taken) null s'

  abbrev pub take_fraction : Scanner Double → Scanner Double
  take_fraction s = elim s.rest [
    | [] ↦ s
    | c ∷ rest ↦ advance_while is_digit (record s { taken = s.taken ++ c ∷ []; rest = rest })
  ]

  module _ (parse_double : Text → Double) where
    abbrev pub end_number : Scanner Double → Scanner Double
    end_number s = add_token number (double (parse_double s.taken)) s

    abbrev pub number_token : Scanner Double → Scanner Double
    number_token s =
        let s' = advance_while is_digit s in
        end_number (if fraction_behind s'.rest then take_fraction s' else s')

    abbrev pub other_token : ℕ → Scanner Double → Scanner Double
    other_token c s =
        if c == b'/'
        then slash_token s
        else if is_space c
        then s
        else if c == 10
        then record s { line = s.line + 1 }
        else if c == b'"'
        then string_token s
        else if is_digit c
        then number_token s
        else if is_alpha c
        then identifier_token s
        else report unexpected_character s

    -- scanToken, behind its advance
    abbrev pub scan_char : ℕ → Scanner Double → Scanner Double
    scan_char c s = elim (single c) [
      | some kind ↦ add_token kind null s
      | none ↦ elim (double_kind c) [ some kinds ↦ double_token kinds s | none ↦ other_token c s ]
    ]

    -- The loop of scanTokens: its body sets start to current.
    unfoldable pub scan_from : ℕ → Scanner Double → Scanner Double
    scan_from zero s = s
    scan_from (suc fuel) s = elim s.rest [
      | [] ↦ s
      | c ∷ rest ↦ scan_from fuel (scan_char c (record s { taken = c ∷ []; rest = rest }))
    ]

    -- scanTokens, which has ended after a character each time
    unfoldable pub scan_tokens : Text → List (Token Double)
    unfolding scan_from
    scan_tokens source =
        let s = scan_from (length source) (start source) in s.tokens ++ end_token s.line ∷ []
