-- ===== src/Lox/Lines.antt =====
-- The lines that are counted by the functions of jlox_interpriter/src/main/java/lox/Scanner.java.
use build_your_own_stuff.Prelude.{
  ℕ, ◌+◌, ◌≤◌, ◌≡◌, refl, ap, ◌∙◌, Bool, true, false, not, Bool-cases, inl, inr, List, [], ◌∷◌,
  ◌++◌, length, drop, Text, arith, ◌==◌,
}
use build_your_own_stuff.Lox.Tokens.{
  TokenType, Token, Fault, is_digit, is_alpha_numeric, span, newlines, fraction_behind,
}
use build_your_own_stuff.Lox.Scanner.{
  Scanner, advance_while, double_token, slash_token, close_string, string_token, identifier_token,
  take_fraction,
}

span-newlines :
    (test : ℕ → Bool) (cs : Text)
    → newlines (span test cs).0 + newlines (span test cs).1 ≡ newlines cs
span-newlines test [] = omega arith
span-newlines test (c ∷ cs) = elim (Bool-cases (test c)) [
  | inl goes ↦ rw goes (ground (arith, span-newlines test cs))
  | inr stops ↦ rw stops (omega arith)
]

span-shorter : (test : ℕ → Bool) (cs : Text) → length (span test cs).1 ≤ length cs
span-shorter test [] = omega arith
span-shorter test (c ∷ cs) = elim (Bool-cases (test c)) [
  | inl goes ↦ rw goes (omega (arith, span-shorter test cs))
  | inr stops ↦ rw stops (omega arith)
]

span-one_line : (test : ℕ → Bool) (cs : Text) → test 10 ≡ false → newlines (span test cs).0 ≡ 0
span-one_line test [] e = refl
span-one_line test (c ∷ cs) e = elim (Bool-cases (test c)) [
  | inl goes ↦ elim (Bool-cases (c == 10)) [
    | inl newline ↦
        absurd (ground (arith, e, goes, ap test {x = c} {y = 10} (ground (arith, newline))))
    | inr other ↦ rw (goes, other) (span-one_line test cs e)
  ]
  | inr stops ↦ rw stops refl
]

-- What a string stops at is no newline.
quote_next :
    (cs : Text)
    → newlines (drop 1 (span (λ c. not (c == b'"')) cs).1)
      ≡ newlines (span (λ c. not (c == b'"')) cs).1
quote_next [] = refl
quote_next (c ∷ cs) = elim (Bool-cases (c == b'"')) [
  | inl quote ↦ let other : (c == 10) ≡ false = ground (arith, quote) in rw (quote, other) refl
  | inr goes ↦ rw goes (quote_next cs)
]

module _ {Double : Type 0} where
  -- The lines that are counted or to come are as many, and no text has come back.
  pub record Keeps (s s' : Scanner Double) : Type 0 where
    pub lines : s'.line + newlines s'.rest ≡ s.line + newlines s.rest
    pub shorter : length s'.rest ≤ length s.rest

  pub Keeps-refl : (s : Scanner Double) → Keeps s s
  Keeps-refl s = record { lines = refl; shorter = omega arith }

  Keeps-trans : (s s' s'' : Scanner Double) → Keeps s s' → Keeps s' s'' → Keeps s s''
  Keeps-trans s s' s'' k k' = record {
    lines = k'.lines ∙ k.lines;
    shorter = omega (arith, k.shorter, k'.shorter);
  }

  pub advance_while-Keeps :
      (test : ℕ → Bool) (s : Scanner Double) → test 10 ≡ false → Keeps s (advance_while test s)
  advance_while-Keeps test s e = record {
    lines = omega (arith, span-newlines test s.rest, span-one_line test s.rest e);
    shorter = span-shorter test s.rest;
  }

  abbrev pub at : Text → Text → ℕ → List (Token Double) → List (ℕ × Fault) → Scanner Double
  at taken rest line tokens faults = record {
    taken = taken;
    rest = rest;
    line = line;
    tokens = tokens;
    faults = faults;
  }

  pub double_token-Keeps :
      (kinds : TokenType × TokenType) (taken rest : Text) (line : ℕ) (tokens : List (Token Double))
      (faults : List (ℕ × Fault))
      → Keeps
          (at taken rest line tokens faults)
          (double_token kinds (at taken rest line tokens faults))
  double_token-Keeps (long, short) taken [] line tokens faults = record {
    lines = refl;
    shorter = omega arith;
  }
  double_token-Keeps (long, short) taken (c ∷ rest) line tokens faults =
      elim (Bool-cases (c == b'=')) [
        | inl same ↦
            let other : (c == 10) ≡ false = ground (arith, same) in
            rw (same, double_token) (record { lines = rw other refl; shorter = omega arith })
        | inr other ↦ rw (other, double_token) (record { lines = refl; shorter = omega arith })
      ]

  pub slash_token-Keeps :
      (taken rest : Text) (line : ℕ) (tokens : List (Token Double)) (faults : List (ℕ × Fault))
      → Keeps (at taken rest line tokens faults) (slash_token (at taken rest line tokens faults))
  slash_token-Keeps taken [] line tokens faults = record { lines = refl; shorter = omega arith }
  slash_token-Keeps taken (c ∷ rest) line tokens faults = elim (Bool-cases (c == b'/')) [
    | inl same ↦
        let test : ℕ → Bool = λ d. not (d == 10) in
        let other : (c == 10) ≡ false = ground (arith, same) in
        rw (same, slash_token)
          (record {
            lines = rw other (omega (arith, span-newlines test rest, span-one_line test rest refl));
            shorter = omega (arith, span-shorter test rest);
          })
    | inr other ↦ rw (other, slash_token) (record { lines = refl; shorter = omega arith })
  ]

  close_string-Keeps :
      (taken rest : Text) (line : ℕ) (tokens : List (Token Double)) (faults : List (ℕ × Fault))
      → newlines (drop 1 rest) ≡ newlines rest
      → Keeps (at taken rest line tokens faults) (close_string (at taken rest line tokens faults))
  close_string-Keeps taken [] line tokens faults e = record { lines = refl; shorter = omega arith }
  close_string-Keeps taken (c ∷ rest) line tokens faults e = record {
    lines = ap (λ n. line + n) e;
    shorter = omega arith;
  }

  pub string_token-Keeps : (s : Scanner Double) → Keeps s (string_token s)
  string_token-Keeps s =
      let test : ℕ → Bool = λ c. not (c == b'"') in
      let parts = span test s.rest in
      let closed =
        close_string-Keeps (s.taken ++ parts.0) parts.1 (s.line + newlines parts.0) s.tokens
          s.faults (quote_next s.rest) in
      record {
        lines = closed.lines ∙ omega (arith, span-newlines test s.rest);
        shorter = omega (arith, closed.shorter, span-shorter test s.rest);
      }

  pub identifier_token-Keeps : (s : Scanner Double) → Keeps s (identifier_token s)
  identifier_token-Keeps s =
      let k = advance_while-Keeps is_alpha_numeric s refl in
      record { lines = k.lines; shorter = k.shorter }

  pub fraction-Keeps :
      (taken rest : Text) (line : ℕ) (tokens : List (Token Double)) (faults : List (ℕ × Fault))
      → fraction_behind rest ≡ true
      → Keeps (at taken rest line tokens faults) (take_fraction (at taken rest line tokens faults))
  fraction-Keeps taken [] line tokens faults e = record { lines = refl; shorter = omega arith }
  fraction-Keeps taken (c ∷ []) line tokens faults e = absurd (ground (arith, e))
  fraction-Keeps taken (c ∷ d ∷ rest) line tokens faults e =
      let other : (c == 10) ≡ false = ground (arith, e) in
      let more =
        advance_while-Keeps is_digit (at (taken ++ c ∷ []) (d ∷ rest) line tokens faults) refl in
      record { lines = more.lines ∙ rw other refl; shorter = omega (arith, more.shorter) }
