-- ===== src/Files/Printed.antt =====
-- What the exercises of cpp/file_management print of a file.
use build_your_own_stuff.Prelude.{
  ℕ, zero, suc, ◌+◌, ◌<◌, ◌≡◌, refl, ap, sym, ◌∙◌, true, Bool-cases, inl, inr, Option, none, [],
  ◌∷◌, ◌++◌, append_assoc, length, length-append, Text, codes, arith, ◌==◌,
}
use build_your_own_stuff.Files.Programs.{
  split_line, behind, getline, get, print_lines, print_bytes, at_start, newline, read_file,
  append_and_print, put_and_print,
}

print_lines-ended : (fuel : ℕ) → print_lines fuel (behind none) ≡ []
unfolding print_lines
print_lines-ended zero = refl
print_lines-ended (suc fuel) = refl

-- The first line and the rest, printed
abbrev rounds : ℕ → Text × Option Text → Text
rounds fuel line = line.0 ++ 10 ∷ print_lines fuel (behind line.1)

print_lines-round :
    (fuel : ℕ) (cs : Text) → print_lines (suc fuel) (at_start cs) ≡ rounds fuel (split_line cs)
unfolding print_lines getline
print_lines-round fuel cs = refl

rounds-content :
    (fuel : ℕ) (cs : Text) → length cs < fuel → rounds fuel (split_line cs) ≡ cs ++ newline
unfolding split_line
rounds-content zero cs h = absurd (omega arith)
rounds-content (suc fuel) [] h = ap (λ later. 10 ∷ later) (print_lines-ended (suc fuel))
rounds-content (suc fuel) (c ∷ cs) h = elim (Bool-cases (c == 10)) [
  | inl here ↦
      let same : c ≡ 10 = ground (arith, here) in
      rw here (
        ap (λ later. 10 ∷ later) (print_lines-round fuel cs ∙ rounds-content fuel cs (omega arith))
        ∙ ap (λ d. d ∷ (cs ++ newline)) (sym same))
  | inr other ↦ rw other (ap (λ later. c ∷ later) (rounds-content (suc fuel) cs (omega arith)))
]

print_lines-content :
    (fuel : ℕ) (cs : Text) → length cs + 1 < fuel → print_lines fuel (at_start cs) ≡ cs ++ newline
print_lines-content zero cs h = absurd (omega arith)
print_lines-content (suc fuel) cs h =
    print_lines-round fuel cs ∙ rounds-content fuel cs (omega arith)

print_bytes-ended : (fuel ch : ℕ) → print_bytes fuel ch (behind none) ≡ []
unfolding print_bytes
print_bytes-ended zero ch = refl
print_bytes-ended (suc fuel) ch = refl

print_bytes-content :
    (fuel ch last : ℕ) (cs : Text)
    → length cs + 1 < fuel
    → print_bytes fuel ch (at_start (cs ++ last ∷ [])) ≡ cs ++ last ∷ last ∷ []
unfolding print_bytes get
print_bytes-content zero ch last cs h = absurd (omega arith)
print_bytes-content (suc zero) ch last cs h = absurd (omega arith)
print_bytes-content (suc (suc fuel)) ch last [] h =
    ap (λ later. last ∷ last ∷ later) (print_bytes-ended fuel last)
print_bytes-content (suc (suc fuel)) ch last (c ∷ cs) h =
    ap (λ later. c ∷ later) (print_bytes-content (suc fuel) c last cs (omega arith))

-- Where the files can be opened, read_file.cpp and fstream.cpp print the file and then a newline, whatever is in
-- it, fstream.cpp having written its line behind what was there, and binary_files.cpp prints its file and then the
-- NUL that it put behind its string once more.
pub printed-content :
    (content input : Text) (ch : ℕ)
    → ((read_file true content).cout ≡ (read_file true content).content ++ newline)
      × ((append_and_print true content).cout ≡ (append_and_print true content).content ++ newline)
      × ((append_and_print true content).content ≡ content ++ codes "Writing on file" ++ newline)
      × ((put_and_print true input ch content).cout
          ≡ (put_and_print true input ch content).content ++ 0 ∷ [])
unfolding read_file append_and_print put_and_print
printed-content content input ch =
    let after = content ++ (codes "Writing on file" ++ newline) in
    let size = length-append input (0 ∷ []) in
    (
      print_lines-content (length content + 2) content (omega arith),
      print_lines-content (length after + 2) after (omega arith),
      sym (append_assoc content (codes "Writing on file") newline),
      print_bytes-content (length (input ++ 0 ∷ []) + 2) ch 0 input (omega arith)
          ∙ sym (append_assoc input (0 ∷ []) (0 ∷ [])),
    )
