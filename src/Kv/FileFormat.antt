-- ===== src/Kv/FileFormat.antt =====
-- The text file of FileBasedStorageEngine: saveToFile and loadFromFile of
-- simple-kv-cpp/src/file_based_kv_store.cpp, apart from opening the file.
use build_your_own_stuff.Prelude.{
  ℕ, suc, ◌≡◌, refl, ap, ◌∙◌, none, some, List, [], ◌∷◌, ◌++◌, arith, length, take, drop, Text,
  find, Lacks, Lacks-append, find-append_char, take-length-append, text_eq_iff, ◌==◌, if◌then◌else◌,
}
use build_your_own_stuff.Kv.Table.{Entry, Table, lookup, assign, Distinct, lookup-assign}

abbrev pub newline : ℕ
newline = 10

abbrev pub equals_sign : ℕ
equals_sign = b'='

-- file << key << "=" << value << "\n", without the newline
unfoldable pub entry_line : Entry → Text
entry_line (key, value) = key ++ equals_sign ∷ value

-- The loop of saveToFile over the elements in the order in which it meets them.
unfoldable pub serialize : Table → Text
unfolding entry_line
serialize [] = []
serialize (entry ∷ rest) = entry_line entry ++ newline ∷ serialize rest

unfoldable pub extend_first : ℕ → List Text → List Text
extend_first c [] = (c ∷ []) ∷ []
extend_first c (l ∷ ls) = (c ∷ l) ∷ ls

-- What the calls of std::getline return until one fails: a last line needs no newline, and nothing
-- comes after a last newline.
unfoldable pub lines : Text → List Text
unfolding extend_first
lines [] = []
lines (c ∷ rest) = let ls = lines rest in if c == newline then [] ∷ ls else extend_first c ls

-- The body of the loop of loadFromFile: a line with no '=' is passed over.
unfoldable pub load_line : Table → Text → Table
load_line store line = elim (find equals_sign line) [
  | none ↦ store
  | some pos ↦ assign (take pos line) (drop (suc pos) line) store
]

unfoldable pub load_lines : Table → List Text → Table
unfolding load_line
load_lines store [] = store
load_lines store (line ∷ rest) = load_lines (load_line store line) rest

-- A key or value that the format can hold.
abbrev pub IsCleanKey : Text → Type 0
IsCleanKey k = Lacks equals_sign k × Lacks newline k

abbrev pub IsCleanValue : Text → Type 0
IsCleanValue v = Lacks newline v

abbrev pub IsClean : Table → Type 0
IsClean [] = Unit {0}
IsClean ((k, v) ∷ m) = IsCleanKey k × IsCleanValue v × IsClean m

pub lines-append_newline : (s t : Text) → Lacks newline s → lines (s ++ newline ∷ t) ≡ s ∷ lines t
unfolding lines
lines-append_newline [] t h = refl
lines-append_newline (c ∷ s) t h = rw (h.0, lines-append_newline s t h.1) refl

drop-suc : (s t : Text) (c : ℕ) → drop (suc (length s)) (s ++ c ∷ t) ≡ t
drop-suc [] t c = refl
drop-suc (x ∷ s) t c = drop-suc s t c

-- A line with an '=' is cut at the first one.
pub load_line-entry_line :
    (store : Table) (k v : Text)
    → Lacks equals_sign k
    → load_line store (k ++ equals_sign ∷ v) ≡ assign k v store
unfolding load_line
load_line-entry_line store k v h =
    rw (find-append_char equals_sign k v h, load_line)
      (rw (take-length-append k (equals_sign ∷ v), drop-suc k v equals_sign) refl)

-- Assigns every element in turn.
pub assign_all : Table → Table → Table
assign_all store [] = store
assign_all store ((k, v) ∷ rest) = assign_all (assign k v store) rest

record_line-Lacks :
    (k v : Text) → IsCleanKey k → IsCleanValue v → Lacks newline (k ++ equals_sign ∷ v)
record_line-Lacks k v ck cv = Lacks-append newline k (equals_sign ∷ v) ck.1 (refl, cv)

pub lines-nil : lines [] ≡ []
unfolding lines
lines-nil = refl

-- Loading what was saved assigns the saved elements in their order.
pub load_lines-serialize :
    (store m : Table) → IsClean m → load_lines store (lines (serialize m)) ≡ assign_all store m
unfolding load_lines serialize assign_all
load_lines-serialize store [] c = rw lines-nil refl
load_lines-serialize store ((k, v) ∷ m) c =
    ap (load_lines store)
      (lines-append_newline (k ++ equals_sign ∷ v) (serialize m) (record_line-Lacks k v c.0 c.1))
    ∙ ap (λ t. load_lines t (lines (serialize m))) (load_line-entry_line store k v c.0.0)
    ∙ load_lines-serialize (assign k v store) m c.2

-- With distinct keys the order of the assignments does not show.
pub lookup-assign_all :
    (store m : Table) (j : Text)
    → Distinct m
    → lookup j (assign_all store m)
      ≡ (elim (lookup j m) [ none ↦ lookup j store | some v ↦ some v ])
unfolding lookup assign_all
lookup-assign_all store [] j d = refl
lookup-assign_all store ((k, v) ∷ m) j d = ground (
  arith,
  lookup-assign_all (assign k v store) m j d.1,
  lookup-assign k j v store,
  text_eq_iff k j,
)
