-- ===== src/Lox/Ends.antt =====
-- That scanTokens of jlox_interpriter/src/main/java/lox/Scanner.java comes to the end of the source, and on
-- which line.
use build_your_own_stuff.Prelude.{
  ℕ, zero, suc, ◌+◌, ◌≤◌, ◌≡◌, refl, ap, sym, subst, ◌∙◌, false, Bool-cases, inl, inr, Option, none,
  some, List, [], ◌∷◌, ◌++◌, length, Text, arith, ◌==◌,
}
use build_your_own_stuff.Lox.Tokens.{
  TokenType, null, Token, Fault, is_digit, is_alpha, single, double_kind, is_space, newlines,
  fraction_behind,
}
use build_your_own_stuff.Lox.Scanner.{
  Scanner, start, end_token, add_token, advance_while, double_token, number_token, other_token,
  scan_char, scan_from, scan_tokens,
}
use build_your_own_stuff.Lox.Lines.{
  Keeps, Keeps-refl, advance_while-Keeps, at, double_token-Keeps, slash_token-Keeps,
  string_token-Keeps, identifier_token-Keeps, fraction-Keeps,
}

module _ {Double : Type 0} where
  module _ (parse_double : Text → Double) where
    number_token-Keeps : (s : Scanner Double) → Keeps s (number_token parse_double s)
    number_token-Keeps s =
        let first = advance_while-Keeps is_digit s refl in
        let s' = advance_while is_digit s in
        elim (Bool-cases (fraction_behind s'.rest)) [
          | inl more ↦
              let second = fraction-Keeps s'.taken s'.rest s'.line s'.tokens s'.faults more in
              rw more (record {
                lines = second.lines ∙ first.lines;
                shorter = omega (arith, first.shorter, second.shorter);
              })
          | inr whole ↦ rw whole (record { lines = first.lines; shorter = first.shorter })
        ]

    other_token-Keeps :
        (c : ℕ) (s : Scanner Double) → (c == 10) ≡ false → Keeps s (other_token parse_double c s)
    other_token-Keeps c s other = elim (Bool-cases (c == b'/')) [
      | inl slash ↦ rw slash (slash_token-Keeps s.taken s.rest s.line s.tokens s.faults)
      | inr no_slash ↦
          rw (no_slash, other)
            (elim (Bool-cases (is_space c)) [
              | inl space ↦ rw space (Keeps-refl s)
              | inr no_space ↦ rw no_space (elim (Bool-cases (c == b'"')) [
                | inl quote ↦ rw quote (string_token-Keeps s)
                | inr no_quote ↦ rw no_quote (elim (Bool-cases (is_digit c)) [
                  | inl digit ↦ rw digit (number_token-Keeps s)
                  | inr no_digit ↦ rw no_digit (elim (Bool-cases (is_alpha c)) [
                    | inl alpha ↦ rw alpha (identifier_token-Keeps s)
                    | inr no_alpha ↦ rw no_alpha (record { lines = refl; shorter = omega arith })
                  ])
                ])
              ])
            ])
    ]

    abbrev pub scan_kind :
        Option TokenType → Option (TokenType × TokenType) → ℕ → Scanner Double → Scanner Double
    scan_kind one two c s = elim one [
      | some kind ↦ add_token kind null s
      | none ↦ elim two [ some kinds ↦ double_token kinds s | none ↦ other_token parse_double c s ]
    ]

    scan_kind-Keeps :
        (one : Option TokenType) (two : Option (TokenType × TokenType)) (c : ℕ) (s : Scanner Double)
        → (c == 10) ≡ false
        → Keeps s (scan_kind one two c s)
    scan_kind-Keeps (some kind) two c s other = record { lines = refl; shorter = omega arith }
    scan_kind-Keeps none (some kinds) c s other =
        double_token-Keeps kinds s.taken s.rest s.line s.tokens s.faults
    scan_kind-Keeps none none c s other = other_token-Keeps c s other

    scan_char-Keeps :
        (c : ℕ) (s : Scanner Double) → (c == 10) ≡ false → Keeps s (scan_char parse_double c s)
    scan_char-Keeps c s other = scan_kind-Keeps (single c) (double_kind c) c s other

    -- The lines counted behind a character and its token
    scan_char-newlines :
        (c : ℕ) (taken rest : Text) (line : ℕ) (tokens : List (Token Double))
        (faults : List (ℕ × Fault))
        → ((scan_char parse_double c (at taken rest line tokens faults)).line
              + newlines (scan_char parse_double c (at taken rest line tokens faults)).rest
            ≡ line + newlines (c ∷ rest))
          × (length (scan_char parse_double c (at taken rest line tokens faults)).rest
              ≤ length rest)
    unfolding single double_kind
    scan_char-newlines c taken rest line tokens faults = elim (Bool-cases (c == 10)) [
      | inl newline ↦
          let e : c ≡ 10 = ground (arith, newline) in
          subst
            (λ d.
              ((scan_char parse_double d (at taken rest line tokens faults)).line
                  + newlines (scan_char parse_double d (at taken rest line tokens faults)).rest
                ≡ line + newlines (d ∷ rest))
              × (length (scan_char parse_double d (at taken rest line tokens faults)).rest
                  ≤ length rest))
            (sym e) (omega arith, omega arith)
      | inr other ↦
          let k = scan_char-Keeps c (at taken rest line tokens faults) other in
          rw other (k.lines, k.shorter)
    ]

    scan_from-ends :
        (fuel : ℕ) (taken rest : Text) (line : ℕ) (tokens : List (Token Double))
        (faults : List (ℕ × Fault))
        → length rest ≤ fuel
        → ((scan_from parse_double fuel (at taken rest line tokens faults)).rest ≡ [])
          × ((scan_from parse_double fuel (at taken rest line tokens faults)).line
              ≡ line + newlines rest)
    unfolding scan_from
    scan_from-ends zero taken [] line tokens faults h = (refl, omega arith)
    scan_from-ends zero taken (c ∷ rest) line tokens faults h = absurd (omega arith)
    scan_from-ends (suc fuel) taken [] line tokens faults h = (refl, omega arith)
    scan_from-ends (suc fuel) taken (c ∷ rest) line tokens faults h =
        let one = scan_char-newlines c (c ∷ []) rest line tokens faults in
        let s = scan_char parse_double c (at (c ∷ []) rest line tokens faults) in
        let more =
          scan_from-ends fuel s.taken s.rest s.line s.tokens s.faults (omega (arith, one.1)) in
        (more.0, more.1 ∙ one.0)

    -- The loop of scanTokens comes to the end of any source, with one round for each of its characters at
    -- most, and the last token, EOF, has as its line one more than there are newlines in the source.
    pub scan_tokens-end :
        (source : Text)
        → (s : Scanner Double) × (scan_from parse_double (length source) (start source) ≡ s)
          × (s.rest ≡ [])
          × (scan_tokens parse_double source ≡ s.tokens ++ end_token (1 + newlines source) ∷ [])
    unfolding scan_tokens
    scan_tokens-end source =
        let s = scan_from parse_double (length source) (start source) in
        let ends = scan_from-ends (length source) [] source 1 [] [] (omega arith) in
        (s, refl, ends.0, ap (λ line. s.tokens ++ end_token line ∷ []) ends.1)
