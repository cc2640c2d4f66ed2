-- ===== src/Kv/Order.antt =====
-- The order in which a std::unordered_map is iterated does not matter to what a table holds.
use mathlib.Core.List.{Permᴰ}
use mathlib.Core.Logic.{∥∥₁_elim}
use build_your_own_stuff.Prelude.{
  ◌≡◌, refl, sym, ap, ◌∙◌, Option, none, some, [], ◌∷◌, arith, Perm, Text, text_eq_iff, text_eq_sym,
}
use build_your_own_stuff.Kv.Table.{Entry, Table, lookup, Distinct}
use build_your_own_stuff.Kv.FileFormat.{
  IsClean, serialize, lines, load_lines, load_lines-serialize, lookup-assign_all,
}

none_or_some : (o : Option Text) → (elim o [ none ↦ none | some v ↦ some v ]) ≡ o
none_or_some none = refl
none_or_some (some v) = refl

-- `ys` is as good as `xs` to every reader of the table.
record Same (xs ys : Table) : Type 0 where
  distinct : Distinct ys
  clean : IsClean ys
  agrees : (j : Text) → lookup j xs ≡ lookup j ys

cons-Same :
    (e : Entry) (xs ys : Table)
    → Distinct (e ∷ xs)
    → Same xs ys
    → IsClean (e ∷ xs)
    → Same (e ∷ xs) (e ∷ ys)
unfolding lookup
cons-Same (k, v) xs ys d s c = record {
  distinct = (sym (s.agrees k) ∙ d.0, s.distinct);
  clean = (c.0, c.1, s.clean);
  agrees = λ j. ground (arith, s.agrees j);
}

swap-Same :
    (e f : Entry) (xs : Table)
    → Distinct (e ∷ f ∷ xs)
    → IsClean (e ∷ f ∷ xs)
    → Same (e ∷ f ∷ xs) (f ∷ e ∷ xs)
unfolding lookup
swap-Same (k, v) (j, w) xs d c = record {
  distinct = ground (arith, text_eq_sym j k);
  clean = ground arith;
  agrees = λ i. ground (arith, text_eq_sym j k, text_eq_iff j i, text_eq_iff k i, text_eq_iff k j);
}

perm-Same : {xs ys : Table} → Permᴰ xs ys → Distinct xs → IsClean xs → Same xs ys
perm-Same Permᴰ.nil d c = record { distinct = tt; clean = tt; agrees = λ j. refl }
perm-Same (Permᴰ.cons {a = e} {l₁ = xs} {l₂ = ys} p r) d c =
    rw (← p) (cons-Same e xs ys d (perm-Same r d.1 c.2) c)
perm-Same (Permᴰ.swap {a = e} {b = f} {l = xs} p q) d c = rw (← p, ← q) (swap-Same e f xs d c)
perm-Same (Permᴰ.trans r s) d c =
    let first = perm-Same r d c in
    let second = perm-Same s first.distinct first.clean in
    record {
      distinct = second.distinct;
      clean = second.clean;
      agrees = λ j. first.agrees j ∙ second.agrees j;
    }

Option-Text-set : IsSet (Option Text)
Option-Text-set = hlevel

-- A table that the file format can hold comes back from the file, in whichever order the
-- iteration met its elements.
pub lookup-load-serialize :
    (xs m : Table) (j : Text)
    → Perm m xs
    → Distinct m
    → IsClean m
    → lookup j (load_lines [] (lines (serialize xs))) ≡ lookup j m
unfolding lookup
lookup-load-serialize xs m j p d c = ∥∥₁_elim p (Option-Text-set _ _) reload
  where
    reload : Permᴰ m xs → lookup j (load_lines [] (lines (serialize xs))) ≡ lookup j m
    reload r =
        let same = perm-Same r d c in
        ap (lookup j) (load_lines-serialize [] xs same.clean)
        ∙ lookup-assign_all [] xs j same.distinct
        ∙ none_or_some (lookup j xs)
        ∙ sym (same.agrees j)
