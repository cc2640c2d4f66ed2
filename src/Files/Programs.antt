-- ===== src/Files/Programs.antt =====
-- cpp/file_management: output_file.cpp, read_file.cpp, fstream.cpp and binary_files.cpp, of which each is given
-- whether its file can be opened and gives what it prints. A stream is what is still to be read, and whether
-- it is good.
use build_your_own_stuff.Prelude.{
  ℕ, zero, suc, ◌+◌, Bool, true, false, Option, none, some, [], ◌∷◌, ◌++◌, length, Text, codes,
  ◌==◌, if◌then◌else◌,
}

pub record Stream : Type 0 where
  pub rest : Text
  pub good : Bool

-- The characters before the first newline, and what is behind it
unfoldable pub split_line : Text → Text × Option Text
split_line [] = ([], none)
split_line (c ∷ cs) =
    let more = split_line cs in if c == 10 then ([], some cs) else (c ∷ more.0, more.1)

abbrev pub behind : Option Text → Stream
behind none = record { rest = []; good = false }
behind (some rest) = record { rest = rest; good = true }

-- std::getline on a good stream: without a newline it comes to the end of the file.
unfoldable pub getline : Stream → Text × Stream
getline file = let line = split_line file.rest in (line.0, behind line.1)

-- get on a good stream: at the end of the file it leaves the character as it was.
unfoldable pub get : ℕ → Stream → ℕ × Stream
get ch file = elim file.rest [
  | [] ↦ (ch, record { rest = []; good = false })
  | c ∷ rest ↦ (c, record { rest = rest; good = true })
]

-- `while (file.good())` with getline: what is printed, for so many rounds at most
unfoldable pub print_lines : ℕ → Stream → Text
print_lines zero file = []
print_lines (suc fuel) file =
    let round = getline file in
    let later = print_lines fuel round.1 in if file.good then round.0 ++ 10 ∷ later else []

-- `while (file.good())` with get, from what ch holds
unfoldable pub print_bytes : ℕ → ℕ → Stream → Text
print_bytes zero ch file = []
print_bytes (suc fuel) ch file =
    let round = get ch file in
    let later = print_bytes fuel round.0 round.1 in if file.good then round.0 ∷ later else []

abbrev pub at_start : Text → Stream
at_start content = record { rest = content; good = true }

-- The content of the file, and what main prints
pub record Outcome : Type 0 where
  pub content : Text
  pub cout : Text

abbrev pub newline : Text
newline = 10 ∷ []

abbrev pub not_opened : Text → Outcome
not_opened content = record {
  content = content;
  cout = codes "error while opening the file" ++ newline;
}

-- main of output_file.cpp
unfoldable pub output_file : Bool → Text → Outcome
output_file false content = not_opened content
output_file true content = record {
  content = (codes "Leading File system" ++ newline) ++ (codes "This is 2nd Line" ++ newline);
  cout = codes "Successfully written to the file" ++ newline;
}

-- main of read_file.cpp
unfoldable pub read_file : Bool → Text → Outcome
read_file false content = not_opened content
read_file true content = record {
  content = content;
  cout = print_lines (length content + 2) (at_start content);
}

-- main of fstream.cpp, whose file is opened to append
unfoldable pub append_and_print : Bool → Text → Outcome
append_and_print false content = not_opened content
append_and_print true content =
    let after = content ++ (codes "Writing on file" ++ newline) in
    record { content = after; cout = print_lines (length after + 2) (at_start after) }

-- main of binary_files.cpp, with the string that it puts, and ch not yet set
unfoldable pub put_and_print : Bool → Text → ℕ → Text → Outcome
put_and_print false input ch content = record {
  content = content;
  cout = codes "error while opening file" ++ newline;
}
put_and_print true input ch content =
    let after = input ++ 0 ∷ [] in
    record { content = after; cout = print_bytes (length after + 2) ch (at_start after) }
