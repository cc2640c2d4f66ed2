-- ===== src/People/Person.antt =====
-- cpp/file_management/bin_file_methods.cpp: Person and its serialization, and what it does to the
-- stream. The bytes of an int are an argument, as they are the machine's; ages are at least 0.
use build_your_own_stuff.Prelude.{
  ℕ, ◌+◌, ◌-◌, Bool, false, List, [], ◌∷◌, ◌++◌, length, take, drop, replicate, Text, codes,
  decimal, ltb, ◌==◌, if◌then◌else◌,
}

-- A std::fstream on a file, with its one position.
pub record Stream : Type 0 where
  pub contents : Text
  pub position : ℕ
  pub failed : Bool

-- write, at a position that is in the file or at its end
unfoldable pub write : Text → Stream → Stream
write bytes f = if f.failed then f else record {
  contents = take f.position f.contents ++ (bytes ++ drop (f.position + length bytes) f.contents);
  position = f.position + length bytes;
  failed = false;
}

-- read of n bytes over what a buffer held before: where there are fewer, it takes these and fails.
unfoldable pub read : ℕ → Text → Stream → Text × Stream
read n old f =
    let bytes = take n (drop f.position f.contents) in
    if f.failed then (old, f) else (
      bytes ++ drop (length bytes) old,
      record f { position = f.position + length bytes; failed = ltb (length bytes) n },
    )

-- seekg
unfoldable pub seekg : ℕ → Stream → Stream
seekg n f = if f.failed then f else record f { position = n }

pub record Person : Type 0 where
  pub name : Text
  pub age : ℕ

-- The characters of a C string, before its NUL. Where there is none, the code reads on behind the
-- array; Person(name, age) and Person() always put one there.
unfoldable pub until_nul : Text → Text
until_nul [] = []
until_nul (c ∷ cs) = let rest = until_nul cs in if c == 0 then [] else c ∷ rest

-- strncpy
unfoldable pub strncpy : ℕ → Text → Text
unfolding until_nul
strncpy n source = take n (until_nul source) ++ replicate (n - length (until_nul source)) 0

-- Person(name, age)
unfoldable pub person : Text → ℕ → Person
unfolding strncpy
person name age = record { name = strncpy 79 name ++ 0 ∷ []; age = age }

-- Person(), where `memory` is what stood in `name` before
unfoldable pub noname : Text → Person
noname memory =
    let text = codes "noname" ++ 0 ∷ [] in
    record { name = text ++ drop (length text) memory; age = 0 }

-- whoAreYou
unfoldable pub who_are_you : Person → Text
unfolding until_nul decimal
who_are_you p =
    codes "Hi, I am "
    ++ (until_nul p.name ++ (codes " and I am " ++ (decimal p.age ++ codes " years old.")))

module _ (bytes_of : ℕ → Text) (int_of : Text → ℕ) where
  unfoldable pub write_to_file : Person → Stream → Stream
  unfolding write
  write_to_file p f = write (bytes_of p.age) (write p.name f)

  unfoldable pub read_from_file : Person → Stream → Person × Stream
  unfolding read
  read_from_file p f =
      let (name, g) = read 80 p.name f in
      let (age, h) = read 4 (bytes_of p.age) g in (record { name = name; age = int_of age }, h)

  -- main: what it shows and its exit code, by whether the file is opened
  unfoldable pub main : Bool → Text → ℕ × List Text
  unfolding person noname seekg who_are_you
  main is_open memory =
      let veet = person (codes "Veet") 24 in
      let file = write_to_file veet (record { contents = []; position = 0; failed = false }) in
      let (test, after) = read_from_file (noname memory) (seekg 0 file) in
      if is_open
      then (0, who_are_you veet ∷ who_are_you test ∷ [])
      else (1, codes "Error opening file!" ∷ [])
