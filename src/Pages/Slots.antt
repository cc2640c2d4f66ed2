-- ===== src/Pages/Slots.antt =====
-- The slots of a page of database/simple_page_impl/storage/page.go and the tuples they stand for.
use build_your_own_stuff.Prelude.{
  ℕ, zero, suc, ◌+◌, ◌≤◌, ◌<◌, ◌≡◌, ◌⊎◌, inl, inr, refl, ap, ap₂, true, false, ◌&&◌, Option, none,
  some, List, [], ◌∷◌, ◌++◌, map, length, set, take, drop, Text, arith, leb, if◌then◌else◌,
}
use build_your_own_stuff.Pages.Page.{Slot, Page, page_size, is_deleted, find_deleted}

-- A slot is deleted and has no size, or its tuple lies between the free space and the end of the page.
abbrev pub IsSlot : ℕ → Slot → Type 0
IsSlot free slot =
    (slot.offset ≡ 65535) × (slot.size ≡ 0)
    ⊎ (free ≤ slot.offset) × (slot.offset + slot.size ≤ page_size)

abbrev pub AreSlots : ℕ → List Slot → Type 0
AreSlots free [] = 0 ≤ 0
AreSlots free (slot ∷ slots) = IsSlot free slot × AreSlots free slots

pub record IsSound (p : Page) : Type 0 where
  pub filled : length p.content ≡ page_size
  pub bounded : p.free_space_offset ≤ page_size
  pub placed : AreSlots p.free_space_offset p.slots

-- The tuple that a slot stands for
abbrev pub stored : Text → Slot → Option Text
stored content slot =
    if is_deleted slot then none else some (take slot.size (drop slot.offset content))

abbrev pub tuples : Page → List (Option Text)
tuples p = map (stored p.content) p.slots

IsSlot-lower : (free free' : ℕ) (slot : Slot) → free' ≤ free → IsSlot free slot → IsSlot free' slot
IsSlot-lower free free' slot h (inl gone) = inl gone
IsSlot-lower free free' slot h (inr live) = inr (omega (arith, h, live.0), live.1)

pub AreSlots-lower :
    (free free' : ℕ) (slots : List Slot) → free' ≤ free → AreSlots free slots → AreSlots free' slots
AreSlots-lower free free' [] h all = all
AreSlots-lower free free' (slot ∷ slots) h all =
    (IsSlot-lower free free' slot h all.0, AreSlots-lower free free' slots h all.1)

pub AreSlots-append :
    (free : ℕ) (slots : List Slot) (slot : Slot)
    → AreSlots free slots
    → IsSlot free slot
    → AreSlots free (slots ++ slot ∷ [])
AreSlots-append free [] slot all one = (one, all)
AreSlots-append free (first ∷ slots) slot all one =
    (all.0, AreSlots-append free slots slot all.1 one)

pub AreSlots-set :
    (free i : ℕ) (slots : List Slot) (slot : Slot)
    → AreSlots free slots
    → IsSlot free slot
    → AreSlots free (set slots i slot)
AreSlots-set free i [] slot all one = all
AreSlots-set free zero (first ∷ slots) slot all one = (one, all.1)
AreSlots-set free (suc i) (first ∷ slots) slot all one =
    (all.0, AreSlots-set free i slots slot all.1 one)

IsSlot-full :
    (free size : ℕ) (slot : Slot)
    → 0 < size
    → IsSlot free slot
    → (is_deleted slot && leb size slot.size) ≡ false
IsSlot-full free size slot pos (inl gone) = ground (arith, gone.0, gone.1)
IsSlot-full free size slot pos (inr live) = ground (arith, live.0, live.1)

-- No slot of a sound page is found for a tuple that is not empty.
pub find_deleted-none :
    (free size i : ℕ) (slots : List Slot)
    → 0 < size
    → AreSlots free slots
    → find_deleted size i slots ≡ none
unfolding find_deleted
find_deleted-none free size i [] pos all = refl
find_deleted-none free size i (slot ∷ slots) pos all =
    let full = IsSlot-full free size slot pos all.0 in
    rw full (find_deleted-none free size (suc i) slots pos all.1)

stored-same :
    (free : ℕ) (before after : Text) (slot : Slot)
    → ((k : ℕ) → free ≤ k → drop k after ≡ drop k before)
    → IsSlot free slot
    → stored after slot ≡ stored before slot
stored-same free before after slot same (inl gone) =
    let deleted : is_deleted slot ≡ true = ground (arith, gone.0) in rw deleted refl
stored-same free before after slot same (inr live) =
    ap (λ rest. if is_deleted slot then none else some (take slot.size rest))
      (same slot.offset live.0)

pub tuples-same :
    (free : ℕ) (before after : Text) (slots : List Slot)
    → ((k : ℕ) → free ≤ k → drop k after ≡ drop k before)
    → AreSlots free slots
    → map (stored after) slots ≡ map (stored before) slots
tuples-same free before after [] same all = refl
tuples-same free before after (slot ∷ slots) same all =
    ap₂ (λ t ts. t ∷ ts) (stored-same free before after slot same all.0)
      (tuples-same free before after slots same all.1)
