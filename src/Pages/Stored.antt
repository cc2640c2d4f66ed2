-- ===== src/Pages/Stored.antt =====
-- What DeserializePage of database/simple_page_impl/storage/page.go reads of what Serialize wrote.
use build_your_own_stuff.Prelude.{
  ℕ, zero, suc, ◌+◌, ◌-◌, ◌*◌, ◌^◌, ◌≤◌, ◌<◌, ◌≡◌, refl, ap, ap₂, sym, ◌∙◌, true, Option, some,
  List, [], ◌∷◌, ◌++◌, append_assoc, length, length-append, length-replicate, length-drop, take,
  drop, replicate, Text, arith, leb,
}
use build_your_own_stuff.Pages.Slices.{drop-drop}
use build_your_own_stuff.Pages.Page.{
  Slot, Page, page_size, header_size, slot_size, uint16, uint32, from_uint16, from_uint32,
  slot_then, read_slots, page_of, slots_of, content_of, copy_at, serialize, deserialize_page,
}
use build_your_own_stuff.Pages.Bytes.{
  take_all, drop-front, slots_bytes, AreSmall, IsWritable, gap, nothing, header_bytes, image,
  length-front, regroup, serialize-image,
}

from_uint16-uint16 : (x : ℕ) (rest : Text) → x < 2 ^ 16 → from_uint16 (uint16 x ++ rest) ≡ some x
from_uint16-uint16 x rest h = ap some (omega arith)

from_uint32-uint32 : (x : ℕ) (rest : Text) → x < 2 ^ 32 → from_uint32 (uint32 x ++ rest) ≡ some x
from_uint32-uint32 x rest h = ap some (omega arith)

read_slots-take :
    (count i : ℕ) (slots : List Slot) (front rest : Text)
    → length front ≡ header_size + i * slot_size
    → count ≤ length slots
    → AreSmall slots
    → read_slots count i (front ++ (slots_bytes slots ++ rest)) ≡ some (take count slots)
unfolding read_slots
read_slots-take zero i slots front rest e h small = refl
read_slots-take (suc count) i [] front rest e h small = absurd (omega arith)
read_slots-take (suc count) i (slot ∷ slots) front rest e h small =
    let base = header_size + i * slot_size in
    let offset = uint16 slot.offset in
    let size = uint16 slot.size in
    let four : Text = offset ++ size in
    let later = slots_bytes slots ++ rest in
    let all = front ++ (offset ++ (size ++ later)) in
    let first : drop base all ≡ offset ++ (size ++ later) =
      drop-front base front (offset ++ (size ++ later)) e in
    let second : drop (base + 2) all ≡ size ++ later =
      sym (drop-drop 2 base all) ∙ ap (drop 2) first in
    let more =
      read_slots-take count (suc i) slots (front ++ four) rest
        (omega (arith, length-append front four)) (omega arith) small.2 in
    ap₂ (λ xs ys. slot_then (from_uint16 xs) (from_uint16 ys) (read_slots count (suc i) all)) first
      second
    ∙ ap₂ (λ m n. slot_then m n (read_slots count (suc i) all))
        (from_uint16-uint16 slot.offset (size ++ later) small.0)
        (from_uint16-uint16 slot.size later small.1)
    ∙ ap (slot_then (some slot.offset) (some slot.size))
        (ap (read_slots count (suc i)) (sym (append_assoc front four later)) ∙ more)

module _ {ℓ} {A : Type ℓ} where
  drop-replicate : (n k : ℕ) (a : A) → drop k (replicate n a) ≡ replicate (n - k) a
  drop-replicate n zero a = ap (λ m. replicate m a) {x = n} {y = n - 0} (omega arith)
  drop-replicate zero (suc k) a = ap (λ m. replicate m a) {x = 0} {y = 0 - suc k} (omega arith)
  drop-replicate (suc n) (suc k) a =
      drop-replicate n k a ∙ ap (λ m. replicate m a) {x = n - k} {y = suc n - suc k} (omega arith)

-- Bytes copied to the front of zeros
copy_at-front :
    (n : ℕ) (bytes : Text)
    → length bytes ≤ n
    → copy_at 0 bytes (nothing n) ≡ some (bytes ++ nothing (n - length bytes))
unfolding copy_at
copy_at-front n bytes h =
    let size = length-replicate {A = ℕ} n 0 in
    let room : leb 0 (length (nothing n)) ≡ true = ground arith in
    rw room (
      ap₂ (λ xs ys. some (xs ++ ys)) (take_all (length (nothing n) - 0) bytes (omega arith))
        (drop-replicate n (0 + length bytes) 0
          ∙ ap nothing {x = n - (0 + length bytes)} {y = n - length bytes} (omega arith)))

pub length-image : (p : Page) → IsWritable p → length (image p) ≡ page_size
length-image p w =
    let front = (header_bytes p ++ slots_bytes p.slots) ++ nothing (gap p) in
    let tail = drop p.free_space_offset p.content in
    ap length (sym (regroup (header_bytes p) (slots_bytes p.slots) (nothing (gap p)) tail))
    ∙ length-append front tail
    ∙ omega
        (arith, length-front p w, length-drop p.free_space_offset p.content, w.filled, w.bounded)

-- The page that DeserializePage makes of the bytes that Serialize gives.
abbrev pub reread : Page → Page
reread p =
    let start = header_size + p.tuple_count * slot_size in
    record p { slots = take p.tuple_count p.slots; content = drop start (image p) ++ nothing start }

pub deserialize_page-image :
    (p : Page) → IsWritable p → deserialize_page (image p) ≡ some (reread p)
unfolding deserialize_page
deserialize_page-image p w =
    let bytes = image p in
    let start = header_size + p.tuple_count * slot_size in
    let rest = slots_bytes p.slots ++ (nothing (gap p) ++ drop p.free_space_offset p.content) in
    let assemble : Option ℕ → Option ℕ → Option ℕ → Option Page = λ id count free.
      page_of id count free (slots_of count bytes) (content_of (nothing page_size) count bytes) in
    let size = length-drop start bytes in
    ap (λ id. assemble id (from_uint16 (drop 4 bytes)) (from_uint16 (drop 6 bytes)))
      (from_uint32-uint32 p.id (uint16 p.tuple_count ++ (uint16 p.free_space_offset ++ rest))
        w.numbered)
    ∙ ap (λ count. assemble (some p.id) count (from_uint16 (drop 6 bytes)))
        (from_uint16-uint16 p.tuple_count (uint16 p.free_space_offset ++ rest)
          (omega (arith, w.counted, w.apart, w.bounded)))
    ∙ ap (assemble (some p.id) (some p.tuple_count))
        (from_uint16-uint16 p.free_space_offset rest (omega (arith, w.bounded)))
    ∙ ap
        (λ slots.
          page_of (some p.id) (some p.tuple_count) (some p.free_space_offset) slots
            (content_of (nothing page_size) (some p.tuple_count) bytes))
        (read_slots-take p.tuple_count 0 p.slots (header_bytes p)
          (nothing (gap p) ++ drop p.free_space_offset p.content) refl w.counted w.small)
    ∙ ap
        (page_of (some p.id) (some p.tuple_count) (some p.free_space_offset)
          (some (take p.tuple_count p.slots)))
        (copy_at-front page_size (drop start bytes) (omega (arith, length-image p w))
          ∙ ap (λ n. some (drop start bytes ++ nothing n))
              {x = page_size - length (drop start bytes)} {y = start}
              (omega (arith, length-image p w, w.counted, w.apart, w.bounded)))

-- For a page of 4096 bytes whose slots end before its free space does, with at least as many slots as its
-- tuple count, and whose number and slots fit the widths of their fields, Serialize gives 4096 bytes, and from
-- where the free space ends they are those of Data.
-- DeserializePage reads the numbers of the header back and as many slots as the tuple count says, and fills
-- Data with the bytes behind these slots, moved to the front, so that the tuples are not at their offsets.
pub deserialize_page-serialize :
    (p : Page)
    → IsWritable p
    → (bytes : Text) × (serialize p ≡ some bytes)
      × (length bytes ≡ page_size)
      × (drop p.free_space_offset bytes ≡ drop p.free_space_offset p.content)
      × (deserialize_page bytes
          ≡ some (record p {
            slots = take p.tuple_count p.slots;
            content =
                drop (header_size + p.tuple_count * slot_size) bytes
                ++ replicate (header_size + p.tuple_count * slot_size) 0;
          }))
deserialize_page-serialize p w =
    let front = (header_bytes p ++ slots_bytes p.slots) ++ nothing (gap p) in
    let tail = drop p.free_space_offset p.content in
    (
      image p,
      serialize-image p w,
      length-image p w,
      ap (drop p.free_space_offset)
            (sym (regroup (header_bytes p) (slots_bytes p.slots) (nothing (gap p)) tail))
          ∙ drop-front p.free_space_offset front tail (length-front p w),
      deserialize_page-image p w,
    )
