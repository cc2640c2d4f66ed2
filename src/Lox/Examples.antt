-- ===== src/Lox/Examples.antt =====
-- Witnesses for the scanner, with the length of a number in place of Double.parseDouble.
use build_your_own_stuff.Prelude.{
  text_eq, ℕ, ◌+◌, ◌≡◌, refl, List, [], ◌∷◌, ◌++◌, length, Text, codes, arith,
}
use build_your_own_stuff.Lox.Tokens.{
  while_word, bang_equal, semicolon, unterminated_string, newlines, single, double_kind,
}
use build_your_own_stuff.Lox.Scanner.{Scanner, start, end_token, scan_from, scan_tokens}
use build_your_own_stuff.Lox.Ends.{scan_tokens-end}
use build_your_own_stuff.Lox.Items.{
  keyword, keyword_text, mark_text, Item, mark, word, decimal, quoted,
}
use build_your_own_stuff.Lox.RoundTrip.{written, AreItems, items_tokens, scan_tokens-written}

abbrev measure : Text → ℕ
measure s = length s

-- A string that is not closed
abbrev open_string : Text
open_string = b'"' ∷ b'a' ∷ 10 ∷ []

unterminated_test : (scan_from measure 3 (start open_string)).faults ≡ (2, unterminated_string) ∷ []
unfolding scan_from single double_kind
unterminated_test = refl

abbrev program : List Item
program =
    keyword while_word
    ∷ word (codes "a1")
    ∷ mark bang_equal
    ∷ quoted (b'x' ∷ 10 ∷ [])
    ∷ decimal (codes "1") (codes "25")
    ∷ mark semicolon
    ∷ []

program-AreItems : AreItems program
unfolding mark_text keyword_text text_eq
program-AreItems = (
  omega arith,
  (
    (refl, (refl, omega arith), refl),
    (
      omega arith,
      (
        (refl, (refl, omega arith)),
        (
          (omega arith, (refl, omega arith), omega arith, (refl, (refl, omega arith))),
          (omega arith, omega arith),
        ),
      ),
    ),
  ),
)

scan_tokens-end_example :
    (s : Scanner ℕ) × (scan_from measure (length open_string) (start open_string) ≡ s)
    × (s.rest ≡ [])
    × (scan_tokens measure open_string ≡ s.tokens ++ end_token (1 + newlines open_string) ∷ [])
scan_tokens-end_example = scan_tokens-end measure open_string

scan_tokens-written_example :
    (scan_tokens measure (written program)
      ≡ items_tokens measure 1 program ++ end_token (1 + newlines (written program)) ∷ [])
    × ((scan_from measure (length (written program)) (start (written program))).faults ≡ [])
scan_tokens-written_example = scan_tokens-written measure program program-AreItems
