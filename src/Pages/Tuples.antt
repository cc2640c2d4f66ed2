-- ===== src/Pages/Tuples.antt =====
-- The tuples of a page of database/simple_page_impl/storage/page.go, under AddTuple and DeleteTuple.
use build_your_own_stuff.Prelude.{
  ℕ, zero, suc, ◌+◌, ◌-◌, ◌*◌, ◌%◌, ◌^◌, ◌≤◌, ◌<◌, ◌≡◌, inl, inr, refl, ap, ap₂, ◌∙◌, true, false,
  ◌&&◌, Bool-cases, Option, none, some, List, [], ◌∷◌, ◌++◌, length, length-replicate, set, take,
  drop, Text, arith, ltb, leb, ◌==◌,
}
use build_your_own_stuff.Pages.Slices.{
  overwrite, drop-overwrite, take-drop-overwrite, length-overwrite, map-set, map-append,
}
use build_your_own_stuff.Pages.Page.{
  Slot, Page, page_size, is_deleted, find_deleted, fill, append_tuple, add_tuple, delete_tuple,
  new_page, reused,
}
use build_your_own_stuff.Pages.Slots.{
  IsSound, stored, tuples, AreSlots-lower, AreSlots-append, AreSlots-set, find_deleted-none,
  tuples-same,
}

-- The page that AddTuple makes where it appends
abbrev pub added : Text → Page → Page
added tuple p =
    let offset = p.free_space_offset - length tuple in
    record p {
      content = overwrite offset tuple p.content;
      slots = p.slots ++ record { offset = offset % 2 ^ 16; size = length tuple % 2 ^ 16 } ∷ [];
      free_space_offset = offset % 2 ^ 16;
      tuple_count = (p.tuple_count + 1) % 2 ^ 16;
    }

add_then : Text → Page → Option (ℕ × Slot) → Option (Option ℕ × Page)
add_then tuple p o = elim o [
  | some (i, slot) ↦ reused i slot (length tuple) p (fill slot.offset tuple p)
  | none ↦ append_tuple tuple p
]

pub add_tuple-added :
    (tuple : Text) (p : Page)
    → 0 < length tuple
    → length tuple + 2 * length p.slots ≤ p.free_space_offset
    → IsSound p
    → add_tuple tuple p ≡ some (some (length p.slots), added tuple p)
unfolding add_tuple append_tuple fill add_then
add_tuple-added tuple p pos room s =
    let fits : ltb p.free_space_offset (length tuple + 2 * length p.slots) ≡ false =
      ground (arith, room) in
    let inside : leb (p.free_space_offset - length tuple + length tuple) (length p.content) ≡ true =
      ground (arith, room, s.filled, s.bounded) in
    ap (add_then tuple p)
      (find_deleted-none p.free_space_offset (length tuple) 0 p.slots pos s.placed)
    ∙ rw (fits, inside) refl

pub add_tuple-refused :
    (tuple : Text) (p : Page)
    → 0 < length tuple
    → p.free_space_offset < length tuple + 2 * length p.slots
    → IsSound p
    → add_tuple tuple p ≡ some (none, p)
unfolding add_tuple append_tuple add_then
add_tuple-refused tuple p pos room s =
    let full : ltb p.free_space_offset (length tuple + 2 * length p.slots) ≡ true =
      ground (arith, room) in
    ap (add_then tuple p)
      (find_deleted-none p.free_space_offset (length tuple) 0 p.slots pos s.placed)
    ∙ rw full refl

pub added-IsSound :
    (tuple : Text) (p : Page)
    → length tuple ≤ p.free_space_offset
    → IsSound p
    → IsSound (added tuple p)
added-IsSound tuple p room s =
    let offset = p.free_space_offset - length tuple in
    record {
      filled =
          length-overwrite offset tuple p.content (omega (arith, s.filled, s.bounded)) ∙ s.filled;
      bounded = omega (arith, s.bounded);
      placed =
          AreSlots-append _ p.slots _
            (AreSlots-lower p.free_space_offset (offset % 2 ^ 16) p.slots (omega (arith, s.bounded))
              s.placed)
            (inr (omega arith, omega (arith, s.bounded)));
    }

pub added-tuples :
    (tuple : Text) (p : Page)
    → length tuple ≤ p.free_space_offset
    → IsSound p
    → tuples (added tuple p) ≡ tuples p ++ some tuple ∷ []
added-tuples tuple p room s =
    let offset = p.free_space_offset - length tuple in
    let within : offset + length tuple ≤ length p.content = omega (arith, s.filled, s.bounded) in
    let live : (offset % 2 ^ 16 == 65535) ≡ false = ground (arith, s.bounded) in
    map-append (stored (overwrite offset tuple p.content)) p.slots _
    ∙ ap₂ (λ ts t. ts ++ t ∷ [])
        (tuples-same p.free_space_offset p.content (overwrite offset tuple p.content) p.slots
          (λ k far. drop-overwrite offset k tuple p.content within (omega arith)) s.placed)
        (rw live (
          ap₂ (λ k n. some (take n (drop k (overwrite offset tuple p.content))))
            (omega (arith, s.bounded)) (omega (arith, s.bounded))
          ∙ ap some (take-drop-overwrite offset tuple p.content within)))

-- The page that DeleteTuple makes
abbrev pub deleted : ℕ → Page → Page
deleted i p = record p {
  slots = set p.slots i (record { offset = 65535; size = 0 });
  tuple_count = (p.tuple_count + 65535) % 2 ^ 16;
}

pub delete_tuple-deleted :
    (i : ℕ) (p : Page) → i < length p.slots → delete_tuple i p ≡ some (deleted i p)
unfolding delete_tuple
delete_tuple-deleted i p h =
    let inside : leb (length p.slots) i ≡ false = ground arith in rw inside refl

pub delete_tuple-refused : (i : ℕ) (p : Page) → length p.slots ≤ i → delete_tuple i p ≡ none
unfolding delete_tuple
delete_tuple-refused i p h =
    let outside : leb (length p.slots) i ≡ true = ground arith in rw outside refl

pub deleted-IsSound : (i : ℕ) (p : Page) → IsSound p → IsSound (deleted i p)
deleted-IsSound i p s = record {
  filled = s.filled;
  bounded = s.bounded;
  placed = AreSlots-set p.free_space_offset i p.slots _ s.placed (inl (refl, refl));
}

pub deleted-tuples : (i : ℕ) (p : Page) → tuples (deleted i p) ≡ set (tuples p) i none
deleted-tuples i p = map-set (stored p.content) p.slots i _

pub new_page-IsSound : (id : ℕ) → IsSound (new_page id)
unfolding new_page
new_page-IsSound id = record {
  filled = length-replicate {A = ℕ} page_size 0;
  bounded = omega arith;
  placed = omega arith;
}

find_deleted-some :
    (i j : ℕ) (slots : List Slot)
    → i < length slots
    → (k : ℕ) × (slot : Slot) × (find_deleted 0 j
          (set slots i (record { offset = 65535; size = 0 }))
        ≡ some (k, slot))
      × (slot.offset ≡ 65535)
unfolding find_deleted
find_deleted-some i j [] h = absurd (omega arith)
find_deleted-some zero j (slot ∷ slots) h = (j, record { offset = 65535; size = 0 }, refl, refl)
find_deleted-some (suc i) j (slot ∷ slots) h =
    elim (Bool-cases (is_deleted slot && leb 0 slot.size)) [
      | inl here ↦ (j, slot, rw here refl, ground (arith, here))
      | inr other ↦
          let later = find_deleted-some i (suc j) slots (omega arith) in
          (later.0, later.1, rw other later.2, later.3)
    ]

-- On a sound page, AddTuple of an empty tuple behind DeleteTuple of any slot panics: the slot is found, and
-- its offset is the mark of a deleted one.
pub empty_tuple_panics :
    (i : ℕ) (p : Page)
    → IsSound p
    → i < length p.slots
    → (q : Page) × (delete_tuple i p ≡ some q) × (add_tuple [] q ≡ none)
unfolding add_tuple add_then fill
empty_tuple_panics i p s h =
    let found = find_deleted-some i 0 p.slots h in
    let outside : leb (found.1.offset + 0) (length p.content) ≡ false =
      ground (arith, s.filled, found.3) in
    (
      deleted i p,
      delete_tuple-deleted i p h,
      ap (add_then [] (deleted i p)) found.2 ∙ rw outside refl,
    )
