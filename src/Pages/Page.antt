-- ===== src/Pages/Page.antt =====
-- database/simple_page_impl/storage/page.go: a page with its slots and tuples, and its bytes. A panic of
-- Go, for a slice out of bounds, is `none`.
use build_your_own_stuff.Prelude.{
  ℕ, zero, suc, ◌+◌, ◌-◌, ◌*◌, ◌/◌, ◌%◌, ◌^◌, Bool, ◌&&◌, Option, none, some, List, [], ◌∷◌, ◌++◌,
  length, set, take, drop, replicate, Text, ltb, leb, ◌==◌, if◌then◌else◌,
}
use build_your_own_stuff.Pages.Slices.{overwrite}

pub record Slot : Type 0 where
  pub offset : ℕ
  pub size : ℕ

pub record Page : Type 0 where
  pub id : ℕ
  pub tuple_count : ℕ
  pub free_space_offset : ℕ
  pub slots : List Slot
  pub content : Text

abbrev pub page_size : ℕ
page_size = 4096

abbrev pub header_size : ℕ
header_size = 8

abbrev pub slot_size : ℕ
slot_size = 4

abbrev pub is_deleted : Slot → Bool
is_deleted s = s.offset == 65535

-- binary.LittleEndian
abbrev pub uint16 : ℕ → Text
uint16 x = x % 256 ∷ x / 256 % 256 ∷ []

abbrev pub uint32 : ℕ → Text
uint32 x = x % 256 ∷ x / 256 % 256 ∷ x / 65536 % 256 ∷ x / 16777216 % 256 ∷ []

abbrev pub from_uint16 : Text → Option ℕ
from_uint16 (a ∷ b ∷ rest) = some (a + 256 * b)
from_uint16 _ = none

abbrev pub from_uint32 : Text → Option ℕ
from_uint32 (a ∷ b ∷ c ∷ d ∷ rest) = some (a + 256 * b + 65536 * c + 16777216 * d)
from_uint32 _ = none

-- PutUint16 and PutUint32 of buf[i:], with the bytes to put
unfoldable pub put_at : ℕ → Text → Text → Option Text
put_at i bytes buf =
    if leb (i + length bytes) (length buf) then some (overwrite i bytes buf) else none

-- copy to buf[i:], as far as there is room
unfoldable pub copy_at : ℕ → Text → Text → Option Text
copy_at i bytes buf =
    if leb i (length buf)
    then some (take i buf ++ (take (length buf - i) bytes ++ drop (i + length bytes) buf))
    else none

abbrev pub then_put : ℕ → Text → Option Text → Option Text
then_put i bytes none = none
then_put i bytes (some buf) = put_at i bytes buf

-- Serialize: the loop over the slots, from the i-th one
unfoldable pub put_slots : ℕ → List Slot → Option Text → Option Text
put_slots i [] buf = buf
put_slots i (slot ∷ slots) buf =
    let base = header_size + i * slot_size in
    put_slots (suc i) slots
      (then_put (base + 2) (uint16 slot.size) (then_put base (uint16 slot.offset) buf))

abbrev pub copy_data : Page → Option Text → Option Text
copy_data p none = none
copy_data p (some buf) =
    if leb p.free_space_offset (length p.content)
    then copy_at p.free_space_offset (drop p.free_space_offset p.content) buf
    else none

unfoldable pub serialize_into : Text → Page → Option Text
serialize_into buf p = copy_data p (
    put_slots 0 p.slots (
      then_put 6 (uint16 p.free_space_offset)
        (then_put 4 (uint16 p.tuple_count) (then_put 0 (uint32 p.id) (some buf)))))

unfoldable pub serialize : Page → Option Text
serialize p = serialize_into (replicate page_size 0) p

abbrev pub slot_then : Option ℕ → Option ℕ → Option (List Slot) → Option (List Slot)
slot_then (some offset) (some size) (some slots) =
    some (record { offset = offset; size = size } ∷ slots)
slot_then _ _ _ = none

-- DeserializePage: the loop that reads so many slots, from the i-th one
unfoldable pub read_slots : ℕ → ℕ → Text → Option (List Slot)
read_slots zero i bytes = some []
read_slots (suc count) i bytes =
    let base = header_size + i * slot_size in
    let rest = read_slots count (suc i) bytes in
    slot_then (from_uint16 (drop base bytes)) (from_uint16 (drop (base + 2) bytes)) rest

abbrev pub page_of : Option ℕ → Option ℕ → Option ℕ → Option (List Slot) → Option Text → Option Page
page_of (some id) (some count) (some free) (some slots) (some content) = some (record {
  id = id;
  tuple_count = count;
  free_space_offset = free;
  slots = slots;
  content = content;
})
page_of _ _ _ _ _ = none

abbrev pub slots_of : Option ℕ → Text → Option (List Slot)
slots_of none bytes = none
slots_of (some count) bytes = read_slots count 0 bytes

abbrev pub content_of : Text → Option ℕ → Text → Option Text
content_of buf none bytes = none
content_of buf (some count) bytes = copy_at 0 (drop (header_size + count * slot_size) bytes) buf

-- DeserializePage, of at least 8 bytes
unfoldable pub deserialize_page : Text → Option Page
deserialize_page bytes =
    let count = from_uint16 (drop 4 bytes) in
    page_of (from_uint32 (drop 0 bytes)) count (from_uint16 (drop 6 bytes)) (slots_of count bytes)
      (content_of (replicate page_size 0) count bytes)

-- AddTuple: the loop that looks for a deleted slot with room
unfoldable pub find_deleted : ℕ → ℕ → List Slot → Option (ℕ × Slot)
find_deleted size i [] = none
find_deleted size i (slot ∷ slots) =
    let rest = find_deleted size (suc i) slots in
    if is_deleted slot && leb size slot.size then some (i, slot) else rest

unfoldable pub fill : ℕ → Text → Page → Option Text
fill offset tuple p =
    if leb (offset + length tuple) (length p.content)
    then some (overwrite offset tuple p.content)
    else none

abbrev pub reused : ℕ → Slot → ℕ → Page → Option Text → Option (Option ℕ × Page)
reused i slot size p none = none
reused i slot size p (some content) = some (
  some i,
  record p { content = content; slots = set p.slots i (record slot { size = size % 2 ^ 16 }) },
)

abbrev pub appended : ℕ → ℕ → Page → Option Text → Option (Option ℕ × Page)
appended offset size p none = none
appended offset size p (some content) = some (
  some (length p.slots),
  record p {
    content = content;
    slots = p.slots ++ record { offset = offset % 2 ^ 16; size = size % 2 ^ 16 } ∷ [];
    free_space_offset = offset % 2 ^ 16;
    tuple_count = (p.tuple_count + 1) % 2 ^ 16;
  },
)

-- AddTuple gives the slot's index, or `none` for its error: not enough space.
unfoldable pub append_tuple : Text → Page → Option (Option ℕ × Page)
append_tuple tuple p =
    if ltb p.free_space_offset (length tuple + 2 * length p.slots)
    then some (none, p)
    else let offset = p.free_space_offset - length tuple in
      appended offset (length tuple) p (fill offset tuple p)

unfoldable pub add_tuple : Text → Page → Option (Option ℕ × Page)
add_tuple tuple p = elim (find_deleted (length tuple) 0 p.slots) [
  | some (i, slot) ↦ reused i slot (length tuple) p (fill slot.offset tuple p)
  | none ↦ append_tuple tuple p
]

-- DeleteTuple, for an index that is not negative; `none` is its error: out of range.
unfoldable pub delete_tuple : ℕ → Page → Option Page
delete_tuple i p =
    if leb (length p.slots) i
    then none
    else some (record p {
      slots = set p.slots i (record { offset = 65535; size = 0 });
      tuple_count = (p.tuple_count + 65535) % 2 ^ 16;
    })

-- What AllocateNewPage fills in
unfoldable pub new_page : ℕ → Page
new_page id = record {
  id = id;
  tuple_count = 0;
  free_space_offset = page_size;
  slots = [];
  content = replicate page_size 0;
}
