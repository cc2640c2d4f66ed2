-- ===== src/Files/Examples.antt =====
-- Witnesses for the exercises on files.
use build_your_own_stuff.Prelude.{◌≡◌, refl, true, [], ◌∷◌, ◌++◌, Text, codes}
use build_your_own_stuff.Files.Programs.{
  split_line, getline, print_lines, newline, read_file, append_and_print, put_and_print,
}
use build_your_own_stuff.Files.Printed.{printed-content}

abbrev two_lines : Text
two_lines = codes "ab" ++ newline ++ codes "c" ++ newline

read_file_test :
    (read_file true two_lines).cout ≡ codes "ab" ++ newline ++ codes "c" ++ newline ++ newline
unfolding read_file print_lines getline split_line
read_file_test = refl

printed-content_example :
    ((read_file true two_lines).cout ≡ (read_file true two_lines).content ++ newline)
    × ((append_and_print true two_lines).cout
        ≡ (append_and_print true two_lines).content ++ newline)
    × ((append_and_print true two_lines).content ≡ two_lines ++ codes "Writing on file" ++ newline)
    × ((put_and_print true (codes "hi") 7 two_lines).cout
        ≡ (put_and_print true (codes "hi") 7 two_lines).content ++ 0 ∷ [])
printed-content_example = printed-content two_lines (codes "hi") 7
