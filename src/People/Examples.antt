-- ===== src/People/Examples.antt =====
-- A witness and tests for people in a file.
use build_your_own_stuff.Prelude.{
  ℕ, ◌+◌, ◌*◌, ◌/◌, ◌%◌, ◌^◌, ◌<◌, ◌≡◌, refl, arith, true, [], ◌∷◌, replicate, Text, codes, decimal,
}
use build_your_own_stuff.People.Person.{
  write, read, seekg, until_nul, strncpy, person, noname, who_are_you, write_to_file,
  read_from_file, main,
}
use build_your_own_stuff.People.Restored.{
  between, write_people, read_people, bytes_of_people, people-restored,
}

-- An int as its four bytes, the lowest first.
abbrev bytes_of_int : ℕ → Text
bytes_of_int n = n % 256 ∷ n / 256 % 256 ∷ n / 256 / 256 % 256 ∷ n / 256 / 256 / 256 % 256 ∷ []

abbrev int_of_bytes : Text → ℕ
int_of_bytes [] = 0
int_of_bytes (b ∷ bs) = b + 256 * int_of_bytes bs

int_of_bytes-bytes_of_int : (n : ℕ) → n < 2 ^ 31 → int_of_bytes (bytes_of_int n) ≡ n
int_of_bytes-bytes_of_int n h = omega arith

abbrev memory : Text
memory = replicate 80 7

people-restored_example :
    read_people bytes_of_int int_of_bytes (noname memory ∷ noname memory ∷ []) (
      seekg 0 (
        write_people bytes_of_int int_of_bytes
          (person (codes "Veet") 24 ∷ person (codes "Ann") 300 ∷ [])
          (between [] [])))
    ≡ (
      person (codes "Veet") 24 ∷ person (codes "Ann") 300 ∷ [],
      between
          (bytes_of_people bytes_of_int int_of_bytes
            (person (codes "Veet") 24 ∷ person (codes "Ann") 300 ∷ []))
          [],
    )
unfolding person strncpy until_nul noname
people-restored_example =
    people-restored bytes_of_int int_of_bytes (λ n. refl) int_of_bytes-bytes_of_int
      (person (codes "Veet") 24 ∷ person (codes "Ann") 300 ∷ [])
      (noname memory ∷ noname memory ∷ []) (refl, omega arith, refl, (refl, omega arith, refl, tt))

-- main shows the person twice.
main_test : main bytes_of_int int_of_bytes true memory ≡ (
  0,
  codes "Hi, I am Veet and I am 24 years old." ∷ codes "Hi, I am Veet and I am 24 years old." ∷ [],
)
unfolding main write_to_file read_from_file write read seekg person strncpy until_nul noname
    who_are_you decimal
main_test = refl
