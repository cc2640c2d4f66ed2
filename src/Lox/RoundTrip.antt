-- ===== src/Lox/RoundTrip.antt =====
-- That scanTokens of jlox_interpriter/src/main/java/lox/Scanner.java reads back what a program is written of.
use build_your_own_stuff.Prelude.{
  ℕ, zero, suc, ◌+◌, ◌≤◌, ◌<◌, ◌≡◌, refl, ap, sym, ◌∙◌, Bool, false, Bool-cases, inl, inr, List, [],
  ◌∷◌, ◌++◌, append_assoc, append-nil, length, length-append, Text, arith, ◌==◌,
}
use build_your_own_stuff.Lox.Tokens.{
  and_word, class_word, else_word, false_word, for_word, fun_word, if_word, nil_word, or_word,
  print_word, return_word, super_word, this_word, true_word, var_word, while_word, TokenType,
  left_paren, right_paren, left_brace, right_brace, comma, dot, minus, plus, semicolon, slash, star,
  bang, bang_equal, equal, equal_equal, greater, greater_equal, less, less_equal, Token, Fault,
  is_digit, is_alpha_numeric, single, double_kind, newlines,
}
use build_your_own_stuff.Lox.Scanner.{start, end_token, scan_from, scan_tokens}
use build_your_own_stuff.Lox.Items.{
  keyword, keyword_text, mark_text, Item, mark, word, integer, decimal, quoted, item_text, All,
  IsItem,
}
use build_your_own_stuff.Lox.Steps.{
  item_token, at, scan_text, item_end, mark_scanned, identifier_scanned, keyword_scanned,
  integer_scanned, decimal_scanned, quoted_scanned,
}
use build_your_own_stuff.Lox.Ends.{scan_tokens-end}

-- The items of a program with a space behind each
abbrev pub written : List Item → Text
written [] = []
written (item ∷ items) = item_text item ++ b' ' ∷ written items

abbrev pub AreItems : List Item → Type 0
AreItems [] = 0 ≤ 0
AreItems (item ∷ items) = IsItem item × AreItems items

All-one_line : (test : ℕ → Bool) (cs : Text) → test 10 ≡ false → All test cs → newlines cs ≡ 0
All-one_line test [] e all = refl
All-one_line test (c ∷ cs) e all = elim (Bool-cases (c == 10)) [
  | inl newline ↦
      absurd (ground (arith, e, all.0, ap test {x = c} {y = 10} (ground (arith, newline))))
  | inr other ↦ rw other (All-one_line test cs e all.1)
]

newlines-append : (a b : Text) → newlines (a ++ b) ≡ newlines a + newlines b
newlines-append [] b = omega arith
newlines-append (c ∷ a) b = ground (arith, newlines-append a b)

mark_one_line : (kind : TokenType) → newlines (mark_text kind) ≡ 0
unfolding mark_text
mark_one_line left_paren = refl
mark_one_line right_paren = refl
mark_one_line left_brace = refl
mark_one_line right_brace = refl
mark_one_line comma = refl
mark_one_line dot = refl
mark_one_line minus = refl
mark_one_line plus = refl
mark_one_line semicolon = refl
mark_one_line slash = refl
mark_one_line star = refl
mark_one_line bang = refl
mark_one_line bang_equal = refl
mark_one_line equal = refl
mark_one_line equal_equal = refl
mark_one_line greater = refl
mark_one_line greater_equal = refl
mark_one_line less = refl
mark_one_line less_equal = refl
mark_one_line _ = refl

keyword_one_line : (kind : TokenType) → newlines (keyword_text kind) ≡ 0
unfolding keyword_text
keyword_one_line and_word = refl
keyword_one_line class_word = refl
keyword_one_line else_word = refl
keyword_one_line false_word = refl
keyword_one_line for_word = refl
keyword_one_line fun_word = refl
keyword_one_line if_word = refl
keyword_one_line nil_word = refl
keyword_one_line or_word = refl
keyword_one_line print_word = refl
keyword_one_line return_word = refl
keyword_one_line super_word = refl
keyword_one_line this_word = refl
keyword_one_line true_word = refl
keyword_one_line var_word = refl
keyword_one_line while_word = refl
keyword_one_line _ = refl

item_text_filled : (item : Item) → IsItem item → 0 < length (item_text item)
item_text_filled (mark kind) ok = ok
item_text_filled (keyword kind) ok = ok
item_text_filled (word []) ok = absurd (omega (arith, ok))
item_text_filled (word (c ∷ cs)) ok = omega arith
item_text_filled (integer digits) ok = ok.0
item_text_filled (decimal digits fraction) ok =
    omega (arith, ok.0, length-append digits (b'.' ∷ fraction))
item_text_filled (quoted body) ok = omega arith

module _ {Double : Type 0} (parse_double : Text → Double) where
  -- The tokens of items from a line on, each on the line that its item ends on
  abbrev pub items_tokens : ℕ → List Item → List (Token Double)
  items_tokens line [] = []
  items_tokens line (item ∷ items) =
      let end_line = line + newlines (item_text item) in
      item_token parse_double item end_line ∷ items_tokens end_line items

  -- On the line that an item ends on
  moved :
      (item : Item) (rest : Text) (line : ℕ) (tokens : List (Token Double))
      (faults : List (ℕ × Fault))
      → newlines (item_text item) ≡ 0
      → at parse_double
          (item_text item)
          (b' ' ∷ rest)
          line
          (tokens ++ item_token parse_double item line ∷ [])
          faults
        ≡ item_end parse_double item rest line tokens faults
  moved item rest line tokens faults e =
      ap
        (λ l.
          at parse_double (item_text item) (b' ' ∷ rest) l
            (tokens ++ item_token parse_double item l ∷ []) faults)
        {x = line} {y = line + newlines (item_text item)} (omega (arith, e))

  item_scanned :
      (item : Item) (rest : Text) (line : ℕ) (tokens : List (Token Double))
      (faults : List (ℕ × Fault))
      → IsItem item
      → scan_text parse_double (item_text item) rest line tokens faults
        ≡ item_end parse_double item rest line tokens faults
  item_scanned (mark kind) rest line tokens faults ok =
      mark_scanned parse_double kind rest line tokens faults ok
      ∙ moved (mark kind) rest line tokens faults (mark_one_line kind)
  item_scanned (keyword kind) rest line tokens faults ok =
      keyword_scanned parse_double kind rest line tokens faults ok
      ∙ moved (keyword kind) rest line tokens faults (keyword_one_line kind)
  item_scanned (word []) rest line tokens faults ok = absurd (omega (arith, ok))
  item_scanned (word (c ∷ cs)) rest line tokens faults ok =
      identifier_scanned parse_double c cs rest line tokens faults ok.0 ok.1 ok.2
      ∙ moved (word (c ∷ cs)) rest line tokens faults
          (All-one_line is_alpha_numeric (c ∷ cs) refl (ground (arith, ok.0), ok.1))
  item_scanned (integer []) rest line tokens faults ok = absurd (omega (arith, ok.0))
  item_scanned (integer (c ∷ cs)) rest line tokens faults ok =
      integer_scanned parse_double c cs rest line tokens faults ok.1.0 ok.1.1
      ∙ moved (integer (c ∷ cs)) rest line tokens faults (All-one_line is_digit (c ∷ cs) refl ok.1)
  item_scanned (decimal [] fraction) rest line tokens faults ok = absurd (omega (arith, ok.0))
  item_scanned (decimal (c ∷ cs) []) rest line tokens faults ok = absurd (omega (arith, ok.2))
  item_scanned (decimal (c ∷ cs) (d ∷ ds)) rest line tokens faults ok =
      decimal_scanned parse_double c d cs ds rest line tokens faults ok.1.0 ok.1.1 ok.3.0 ok.3.1
      ∙ moved (decimal (c ∷ cs) (d ∷ ds)) rest line tokens faults (
          newlines-append (c ∷ cs) (b'.' ∷ d ∷ ds)
          ∙ omega (
            arith,
            All-one_line is_digit (c ∷ cs) refl ok.1,
            All-one_line is_digit (d ∷ ds) refl ok.3,
          ))
  item_scanned (quoted body) rest line tokens faults ok =
      quoted_scanned parse_double body rest line tokens faults ok
      ∙ ap
          (λ l.
            at parse_double (item_text (quoted body)) (b' ' ∷ rest) l
              (tokens ++ item_token parse_double (quoted body) l ∷ []) faults)
          {x = line + newlines body} {y = line + newlines (body ++ b'"' ∷ [])}
          (omega (arith, newlines-append body (b'"' ∷ [])))

  scan_from-text :
      (cs : Text) (fuel : ℕ) (taken rest : Text) (line : ℕ) (tokens : List (Token Double))
      (faults : List (ℕ × Fault))
      → 0 < length cs
      → scan_from parse_double
          (suc fuel)
          (at parse_double taken (cs ++ b' ' ∷ rest) line tokens faults)
        ≡ scan_from parse_double fuel (scan_text parse_double cs rest line tokens faults)
  unfolding scan_from
  scan_from-text [] fuel taken rest line tokens faults h = absurd (omega arith)
  scan_from-text (c ∷ cs) fuel taken rest line tokens faults h = refl

  scan_from-space :
      (fuel : ℕ) (taken rest : Text) (line : ℕ) (tokens : List (Token Double))
      (faults : List (ℕ × Fault))
      → scan_from parse_double (suc fuel) (at parse_double taken (b' ' ∷ rest) line tokens faults)
        ≡ scan_from parse_double fuel (at parse_double (b' ' ∷ []) rest line tokens faults)
  unfolding scan_from single double_kind
  scan_from-space fuel taken rest line tokens faults = refl

  items_scanned :
      (items : List Item) (fuel : ℕ) (taken : Text) (line : ℕ) (tokens : List (Token Double))
      (faults : List (ℕ × Fault))
      → AreItems items
      → length (written items) ≤ fuel
      → ((scan_from parse_double fuel
            (at parse_double taken (written items) line tokens faults)).tokens
          ≡ tokens ++ items_tokens line items)
        × ((scan_from parse_double fuel
              (at parse_double taken (written items) line tokens faults)).faults
            ≡ faults)
  unfolding scan_from
  items_scanned [] zero taken line tokens faults ok h = (sym (append-nil tokens), refl)
  items_scanned [] (suc fuel) taken line tokens faults ok h = (sym (append-nil tokens), refl)
  items_scanned (item ∷ items) zero taken line tokens faults ok h =
      absurd (omega (arith, length-append (item_text item) (b' ' ∷ written items)))
  items_scanned (item ∷ items) (suc zero) taken line tokens faults ok h = absurd (
      omega
        (arith, item_text_filled item ok.0, length-append (item_text item) (b' ' ∷ written items)))
  items_scanned (item ∷ items) (suc (suc fuel)) taken line tokens faults ok h =
      let filled = item_text_filled item ok.0 in
      let end_line = line + newlines (item_text item) in
      let token = item_token parse_double item end_line in
      let two_rounds =
        scan_from-text (item_text item) (suc fuel) taken (written items) line tokens faults filled
        ∙ ap (scan_from parse_double (suc fuel))
            (item_scanned item (written items) line tokens faults ok.0)
        ∙ scan_from-space fuel (item_text item) (written items) end_line (tokens ++ token ∷ [])
            faults in
      let more =
        items_scanned items fuel (b' ' ∷ []) end_line (tokens ++ token ∷ []) faults ok.1
          (omega (arith, h, filled, length-append (item_text item) (b' ' ∷ written items))) in
      (
        ap (λ s. s.tokens) two_rounds
            ∙ more.0
            ∙ append_assoc tokens (token ∷ []) (items_tokens end_line items),
        ap (λ s. s.faults) two_rounds ∙ more.1,
      )

  -- Any marks, reserved words, identifiers, numbers and strings, written with a space behind each, are scanned
  -- back, where the identifiers are no reserved words and the strings hold no quote: no error is reported, and the tokens are one of each item, with its type, its text, its value and the line
  -- it ends on, and EOF on the last line.
  pub scan_tokens-written :
      (items : List Item)
      → AreItems items
      → (scan_tokens parse_double (written items)
          ≡ items_tokens 1 items ++ end_token (1 + newlines (written items)) ∷ [])
        × ((scan_from parse_double (length (written items)) (start (written items))).faults ≡ [])
  scan_tokens-written items ok =
      let all = items_scanned items (length (written items)) [] 1 [] [] ok (omega arith) in
      let (s, scanned, done, same) = scan_tokens-end parse_double (written items) in
      (
        same
            ∙ ap (λ tokens. tokens ++ end_token (1 + newlines (written items)) ∷ [])
                (ap (λ s. s.tokens) (sym scanned) ∙ all.0),
        all.1,
      )
