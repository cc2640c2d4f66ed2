-- ===== src/Kv/Table.antt =====
-- The `std::unordered_map<std::string, std::string>` that both storage engines hold as `store_`
-- (simple-kv-cpp/include/kv/in_memory_kv_store.h, file_based_kv_store.h), as an association list.
use build_your_own_stuff.Prelude.{
  ◌≡◌, refl, Bool, true, false, Option, none, some, List, [], ◌∷◌, arith, Text, text_eq,
  text_eq_iff, text_eq_sym, if◌then◌else◌,
}

-- One element: the key and its value.
abbrev pub Entry : Type 0
Entry = Text × Text

abbrev pub Table : Type 0
Table = List Entry

-- store_.find(key)
unfoldable pub lookup : Text → Table → Option Text
lookup k [] = none
lookup k ((j, w) ∷ m) = if text_eq j k then some w else lookup k m

-- store_[key] = value
unfoldable pub assign : Text → Text → Table → Table
assign k v [] = (k, v) ∷ []
assign k v ((j, w) ∷ m) = if text_eq j k then (j, v) ∷ m else (j, w) ∷ assign k v m

-- store_.erase(key), without its count
unfoldable pub without : Text → Table → Table
without k [] = []
without k ((j, w) ∷ m) = let rest = without k m in if text_eq j k then rest else (j, w) ∷ rest

-- store_.erase(key) > 0
unfoldable pub has_key : Text → Table → Bool
has_key k m = elim (lookup k m) [ none ↦ false | some _ ↦ true ]

-- Keys stand once.
abbrev pub Distinct : Table → Type 0
Distinct [] = Unit {0}
Distinct ((k, v) ∷ m) = (lookup k m ≡ none) × Distinct m

pub lookup-assign :
    (k j v : Text) (m : Table)
    → lookup j (assign k v m) ≡ (if text_eq k j then some v else lookup j m)
unfolding lookup assign
lookup-assign k j v [] = refl
lookup-assign k j v ((i, w) ∷ m) =
    ground (arith, lookup-assign k j v m, text_eq_iff k j, text_eq_iff i k, text_eq_iff i j)

pub lookup-without :
    (k j : Text) (m : Table) → lookup j (without k m) ≡ (if text_eq k j then none else lookup j m)
unfolding lookup without
lookup-without k j [] = ground arith
lookup-without k j ((i, w) ∷ m) =
    ground (arith, lookup-without k j m, text_eq_iff k j, text_eq_iff i k, text_eq_iff i j)

pub assign-Distinct : (k v : Text) (m : Table) → Distinct m → Distinct (assign k v m)
unfolding lookup assign
assign-Distinct k v [] d = ground arith
assign-Distinct k v ((j, w) ∷ m) d =
    ground (arith, assign-Distinct k v m d.1, lookup-assign k j v m, text_eq_sym j k)

pub without-Distinct : (k : Text) (m : Table) → Distinct m → Distinct (without k m)
unfolding lookup without
without-Distinct k [] d = tt
without-Distinct k ((j, w) ∷ m) d = ground (arith, without-Distinct k m d.1, lookup-without k j m)

pub ruleset table_laws = (lookup-assign, lookup-without)
