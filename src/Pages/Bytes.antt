-- ===== src/Pages/Bytes.antt =====
-- The bytes of a page as Serialize of database/simple_page_impl/storage/page.go writes them.
use build_your_own_stuff.Prelude.{
  ℕ, zero, suc, ◌+◌, ◌-◌, ◌*◌, ◌^◌, ◌≤◌, ◌<◌, ◌≡◌, refl, ap, ap₂, sym, ◌∙◌, true, Option, some,
  List, [], ◌∷◌, ◌++◌, append_assoc, append-nil, length, length-append, length-replicate,
  length-drop, take, drop, replicate, Text, take-length-append, drop-length-append, arith, leb,
}
use build_your_own_stuff.Pages.Slices.{drop-drop}
use build_your_own_stuff.Pages.Page.{
  Slot, Page, page_size, header_size, slot_size, uint16, uint32, put_at, copy_at, then_put,
  put_slots, copy_data, serialize_into, serialize,
}

module _ {ℓ} {A : Type ℓ} where
  pub take_all : (n : ℕ) (xs : List A) → length xs ≤ n → take n xs ≡ xs
  take_all zero [] h = refl
  take_all zero (x ∷ xs) h = absurd (omega arith)
  take_all (suc n) [] h = refl
  take_all (suc n) (x ∷ xs) h = ap (λ ys. x ∷ ys) (take_all n xs (omega arith))

  pub drop_all : (n : ℕ) (xs : List A) → length xs ≤ n → ◌≡◌ {A = List A} (drop n xs) []
  drop_all zero [] h = refl
  drop_all zero (x ∷ xs) h = absurd (omega arith)
  drop_all (suc n) [] h = refl
  drop_all (suc n) (x ∷ xs) h = drop_all n xs (omega arith)

  pub drop-front : (n : ℕ) (xs ys : List A) → length xs ≡ n → drop n (xs ++ ys) ≡ ys
  drop-front n xs ys e = ap (λ m. drop m (xs ++ ys)) (sym e) ∙ drop-length-append xs ys

  pub take-front : (n : ℕ) (xs ys : List A) → length xs ≡ n → take n (xs ++ ys) ≡ xs
  take-front n xs ys e = ap (λ m. take m (xs ++ ys)) (sym e) ∙ take-length-append xs ys

  pub replicate-add :
      (m n k : ℕ) (a : A) → m + n ≡ k → replicate m a ++ replicate n a ≡ replicate k a
  replicate-add zero n k a e = ap (λ j. replicate j a) (omega arith)
  replicate-add (suc m) n zero a e = absurd (omega arith)
  replicate-add (suc m) n (suc k) a e = ap (λ ys. a ∷ ys) (replicate-add m n k a (omega arith))

-- Bytes put in place of as many others
put_at-middle :
    (i : ℕ) (front old rest bytes : Text)
    → length front ≡ i
    → length old ≡ length bytes
    → put_at i bytes (front ++ (old ++ rest)) ≡ some (front ++ (bytes ++ rest))
unfolding put_at
put_at-middle i front old rest bytes e same =
    let size = length-append front (old ++ rest) in
    let inner = length-append old rest in
    let room : leb (i + length bytes) (length (front ++ (old ++ rest))) ≡ true =
      ground (arith, size, inner) in
    let behind : drop (i + length bytes) (front ++ (old ++ rest)) ≡ rest =
      sym (drop-drop (length bytes) i (front ++ (old ++ rest)))
      ∙ ap (drop (length bytes)) (drop-front i front (old ++ rest) e)
      ∙ drop-front (length bytes) old rest same in
    rw room (ap₂ (λ xs ys. some (xs ++ (bytes ++ ys))) (take-front i front (old ++ rest) e) behind)

-- Bytes copied over as many at the end
pub copy_at-tail :
    (i : ℕ) (front old bytes : Text)
    → length front ≡ i
    → length old ≡ length bytes
    → copy_at i bytes (front ++ old) ≡ some (front ++ bytes)
unfolding copy_at
copy_at-tail i front old bytes e same =
    let size = length-append front old in
    let room : leb i (length (front ++ old)) ≡ true = ground (arith, size) in
    let inner : take (length (front ++ old) - i) bytes ++ drop (i + length bytes) (front ++ old)
        ≡ bytes =
      ap₂ (λ xs ys. xs ++ ys) (take_all (length (front ++ old) - i) bytes (omega arith))
        (drop_all (i + length bytes) (front ++ old) (omega arith))
      ∙ append-nil bytes in
    rw room (ap₂ (λ xs ys. some (xs ++ ys)) (take-front i front old e) inner)

abbrev pub slots_bytes : List Slot → Text
slots_bytes [] = []
slots_bytes (slot ∷ slots) = uint16 slot.offset ++ (uint16 slot.size ++ slots_bytes slots)

abbrev pub blank : List Slot → Text
blank [] = []
blank (slot ∷ slots) = 0 ∷ 0 ∷ 0 ∷ 0 ∷ blank slots

blank-replicate : (slots : List Slot) → blank slots ≡ replicate (slot_size * length slots) 0
blank-replicate [] = refl
blank-replicate (slot ∷ slots) =
    ap (λ ys. 0 ∷ 0 ∷ 0 ∷ 0 ∷ ys) (blank-replicate slots)
    ∙ ap (λ n. replicate n 0) {x = suc (suc (suc (suc (slot_size * length slots))))}
        {y = slot_size * suc (length slots)} (omega arith)

pub length-slots_bytes : (slots : List Slot) → length (slots_bytes slots) ≡ slot_size * length slots
length-slots_bytes [] = refl
length-slots_bytes (slot ∷ slots) = omega (arith, length-slots_bytes slots)

pub put_slots-bytes :
    (i : ℕ) (slots : List Slot) (front rest : Text)
    → length front ≡ header_size + i * slot_size
    → put_slots i slots (some (front ++ (blank slots ++ rest)))
      ≡ some (front ++ (slots_bytes slots ++ rest))
unfolding put_slots
put_slots-bytes i [] front rest e = refl
put_slots-bytes i (slot ∷ slots) front rest e =
    let base = header_size + i * slot_size in
    let offset = uint16 slot.offset in
    let size = uint16 slot.size in
    let four : Text = offset ++ size in
    let count = length-append front offset in
    let count' = length-append front four in
    let put_two : Option Text → Option Text =
      λ o. put_slots (suc i) slots (then_put (base + 2) size o) in
    ap put_two (put_at-middle base front (0 ∷ 0 ∷ []) (0 ∷ 0 ∷ (blank slots ++ rest)) offset e refl)
    ∙ ap (λ buf. put_two (some buf))
        (sym (append_assoc front offset (0 ∷ 0 ∷ (blank slots ++ rest))))
    ∙ ap (put_slots (suc i) slots) (
        put_at-middle (base + 2) (front ++ offset) (0 ∷ 0 ∷ []) (blank slots ++ rest) size
          (omega arith) refl
        ∙ ap some (
            append_assoc front offset (size ++ (blank slots ++ rest))
            ∙ sym (append_assoc front four (blank slots ++ rest))))
    ∙ put_slots-bytes (suc i) slots (front ++ four) rest (omega arith)
    ∙ ap some (append_assoc front four (slots_bytes slots ++ rest))

-- What makes a page fit its bytes: its slots end before the free space does, and its numbers are in range.
abbrev pub AreSmall : List Slot → Type 0
AreSmall [] = 0 ≤ 0
AreSmall (slot ∷ slots) = (slot.offset < 2 ^ 16) × (slot.size < 2 ^ 16) × AreSmall slots

pub record IsWritable (p : Page) : Type 0 where
  pub filled : length p.content ≡ page_size
  pub bounded : p.free_space_offset ≤ page_size
  pub apart : header_size + slot_size * length p.slots ≤ p.free_space_offset
  pub numbered : p.id < 2 ^ 32
  pub counted : p.tuple_count ≤ length p.slots
  pub small : AreSmall p.slots

-- The gap between the slots and the tuples
abbrev pub gap : Page → ℕ
gap p = p.free_space_offset - (header_size + slot_size * length p.slots)

abbrev pub header_bytes : Page → Text
header_bytes p = uint32 p.id ++ (uint16 p.tuple_count ++ uint16 p.free_space_offset)

abbrev pub image : Page → Text
image p =
    header_bytes p
    ++ (slots_bytes p.slots ++ (replicate (gap p) 0 ++ drop p.free_space_offset p.content))

abbrev pub nothing : ℕ → Text
nothing n = replicate n 0

blank_page :
    (p : Page)
    → IsWritable p
    → nothing 8 ++ (blank p.slots ++ (nothing (gap p) ++ nothing (page_size - p.free_space_offset)))
      ≡ replicate page_size 0
blank_page p w =
    ap₂ (λ xs ys. nothing 8 ++ (xs ++ ys)) (blank-replicate p.slots)
      (replicate-add (gap p) (page_size - p.free_space_offset)
        (page_size - (header_size + slot_size * length p.slots)) 0
        (omega (arith, w.apart, w.bounded)))
    ∙ ap (λ xs. nothing 8 ++ xs)
        (replicate-add (slot_size * length p.slots)
          (page_size - (header_size + slot_size * length p.slots)) (page_size - 8) 0
          (omega (arith, w.apart, w.bounded)))
    ∙ replicate-add 8 (page_size - 8) page_size 0 (omega arith)

pub put_header :
    (p : Page) (rest : Text)
    → then_put 6
        (uint16 p.free_space_offset)
        (then_put 4 (uint16 p.tuple_count) (put_at 0 (uint32 p.id) (nothing 8 ++ rest)))
      ≡ some (header_bytes p ++ rest)
put_header p rest =
    ap (λ o. then_put 6 (uint16 p.free_space_offset) (then_put 4 (uint16 p.tuple_count) o))
      (put_at-middle 0 [] (nothing 4) (nothing 4 ++ rest) (uint32 p.id) refl refl)
    ∙ ap (then_put 6 (uint16 p.free_space_offset)) (
        put_at-middle 4 (uint32 p.id) (nothing 2) (nothing 2 ++ rest) (uint16 p.tuple_count) refl
          refl)
    ∙ put_at-middle 6 (uint32 p.id ++ uint16 p.tuple_count) (nothing 2) rest
        (uint16 p.free_space_offset) refl refl

pub length-front :
    (p : Page)
    → IsWritable p
    → length ((header_bytes p ++ slots_bytes p.slots) ++ nothing (gap p)) ≡ p.free_space_offset
length-front p w =
    length-append (header_bytes p ++ slots_bytes p.slots) (nothing (gap p))
    ∙ ap₂ (λ m n. m + n) (length-append (header_bytes p) (slots_bytes p.slots))
        (length-replicate {A = ℕ} (gap p) 0)
    ∙ omega (arith, length-slots_bytes p.slots, w.apart)

pub regroup : (a b c d : Text) → ((a ++ b) ++ c) ++ d ≡ a ++ (b ++ (c ++ d))
regroup a b c d = append_assoc (a ++ b) c d ∙ append_assoc a b (c ++ d)

-- Serialize gives the header, the slots, zeros and the tuples.
pub serialize-image : (p : Page) → IsWritable p → serialize p ≡ some (image p)
unfolding serialize serialize_into
serialize-image p w =
    let gone = nothing (gap p) in
    let old = nothing (page_size - p.free_space_offset) in
    let tail = drop p.free_space_offset p.content in
    let front = (header_bytes p ++ slots_bytes p.slots) ++ gone in
    let inside : leb p.free_space_offset (length p.content) ≡ true =
      ground (arith, w.filled, w.bounded) in
    let size : length old ≡ length tail =
      length-replicate {A = ℕ} (page_size - p.free_space_offset) 0
      ∙ omega (arith, length-drop p.free_space_offset p.content, w.filled) in
    ap (λ buf. serialize_into buf p) (sym (blank_page p w))
    ∙ ap (λ o. copy_data p (put_slots 0 p.slots o)) (put_header p (blank p.slots ++ (gone ++ old)))
    ∙ ap (copy_data p) (
        put_slots-bytes 0 p.slots (header_bytes p) (gone ++ old) refl
        ∙ ap some (sym (regroup (header_bytes p) (slots_bytes p.slots) gone old)))
    ∙ rw inside (copy_at-tail p.free_space_offset front old tail (length-front p w) size)
    ∙ ap some (regroup (header_bytes p) (slots_bytes p.slots) gone tail)
