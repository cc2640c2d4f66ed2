-- ===== src/Kv/Clean.antt =====
-- What the file format can hold stays so: under the table's operations, and after loading any text.
use build_your_own_stuff.Prelude.{
  ℕ, zero, suc, ◌≡◌, refl, false, Bool-cases, inl, inr, Option-cases, none, List, [], ◌∷◌, arith,
  take, drop, Text, find, find-ge-Lacks, Lacks, text_eq, ◌==◌,
}
use build_your_own_stuff.Kv.Table.{Table, lookup, assign, without, Distinct, assign-Distinct}
use build_your_own_stuff.Kv.FileFormat.{
  equals_sign, newline, lines, extend_first, load_line, load_lines, IsClean, IsCleanKey,
  IsCleanValue,
}

pub assign-IsClean :
    (k v : Text) (m : Table) → IsCleanKey k → IsCleanValue v → IsClean m → IsClean (assign k v m)
unfolding assign
assign-IsClean k v [] ck cv c = (ck, cv, tt)
assign-IsClean k v ((j, w) ∷ m) ck cv c =
    let rest = assign-IsClean k v m ck cv c.2 in
    elim (Bool-cases (text_eq j k)) [ inl e ↦ rw e (c.0, cv, c.2) | inr e ↦ rw e (c.0, c.1, rest) ]

pub without-IsClean : (k : Text) (m : Table) → IsClean m → IsClean (without k m)
unfolding without
without-IsClean k [] c = tt
without-IsClean k ((j, w) ∷ m) c =
    let rest = without-IsClean k m c.2 in
    elim (Bool-cases (text_eq j k)) [ inl e ↦ rw e rest | inr e ↦ rw e (c.0, c.1, rest) ]

Lacks-take : (c i : ℕ) (s : Text) → Lacks c s → Lacks c (take i s)
Lacks-take c zero s h = tt
Lacks-take c (suc i) [] h = tt
Lacks-take c (suc i) (x ∷ s) h = (h.0, Lacks-take c i s h.1)

Lacks-drop : (c i : ℕ) (s : Text) → Lacks c s → Lacks c (drop i s)
Lacks-drop c zero s h = h
Lacks-drop c (suc i) [] h = tt
Lacks-drop c (suc i) (x ∷ s) h = Lacks-drop c i s h.1

abbrev AllLack : ℕ → List Text → Type 0
AllLack c [] = Unit {0}
AllLack c (l ∷ ls) = Lacks c l × AllLack c ls

extend_first-AllLack :
    (c x : ℕ) (ls : List Text) → (x == c) ≡ false → AllLack c ls → AllLack c (extend_first x ls)
unfolding extend_first
extend_first-AllLack c x [] h a = ((h, tt), tt)
extend_first-AllLack c x (l ∷ ls) h a = ((h, a.0), a.1)

lines-AllLack : (s : Text) → AllLack newline (lines s)
unfolding lines
lines-AllLack [] = tt
lines-AllLack (x ∷ s) = elim (Bool-cases (x == newline)) [
  | inl e ↦ rw e (tt, lines-AllLack s)
  | inr e ↦ rw e (extend_first-AllLack newline x (lines s) e (lines-AllLack s))
]

load_line-IsClean : (m : Table) (l : Text) → Lacks newline l → IsClean m → IsClean (load_line m l)
unfolding load_line
load_line-IsClean m l h c = elim (Option-cases (find equals_sign l)) [
  | inl e ↦ rw (e, load_line) c
  | inr (i, e) ↦
      rw (e, load_line)
        (assign-IsClean (take i l) (drop (suc i) l) m
          (find-ge-Lacks equals_sign l i e, Lacks-take newline i l h)
          (Lacks-drop newline (suc i) l h) c)
]

load_lines-IsClean :
    (m : Table) (ls : List Text) → AllLack newline ls → IsClean m → IsClean (load_lines m ls)
unfolding load_lines
load_lines-IsClean m [] a c = c
load_lines-IsClean m (l ∷ ls) a c =
    load_lines-IsClean (load_line m l) ls a.1 (load_line-IsClean m l a.0 c)

-- Whatever the file holds, the loaded table is one that the format can hold.
pub load-IsClean : (text : Text) → IsClean (load_lines [] (lines text))
load-IsClean text = load_lines-IsClean [] (lines text) (lines-AllLack text) tt

load_line-Distinct : (m : Table) (l : Text) → Distinct m → Distinct (load_line m l)
unfolding load_line
load_line-Distinct m l d = elim (Option-cases (find equals_sign l)) [
  | inl e ↦ rw (e, load_line) d
  | inr (i, e) ↦ rw (e, load_line) (assign-Distinct (take i l) (drop (suc i) l) m d)
]

load_lines-Distinct : (m : Table) (ls : List Text) → Distinct m → Distinct (load_lines m ls)
unfolding load_lines
load_lines-Distinct m [] d = d
load_lines-Distinct m (l ∷ ls) d = load_lines-Distinct (load_line m l) ls (load_line-Distinct m l d)

-- Its keys are distinct, too.
pub load-Distinct : (text : Text) → Distinct (load_lines [] (lines text))
load-Distinct text = load_lines-Distinct [] (lines text) tt

-- Taking out a key that is not there changes nothing.
pub without-missing : (k : Text) (m : Table) → lookup k m ≡ none → without k m ≡ m
unfolding lookup without
without-missing k [] h = refl
without-missing k ((j, w) ∷ m) h = ground (arith, without-missing k m)
