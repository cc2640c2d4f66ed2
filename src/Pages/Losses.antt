-- ===== src/Pages/Losses.antt =====
-- Where the bytes of a page of database/simple_page_impl/storage/page.go lose a part of it.
use build_your_own_stuff.Prelude.{
  ℕ, zero, suc, ◌+◌, ◌-◌, ◌%◌, ◌^◌, ◌<◌, ◌≡◌, refl, ap, ap₂, sym, ◌∙◌, true, some, List, [], ◌∷◌,
  ◌++◌, append-nil, length, length-append, length-replicate, length-set, set, take, replicate, Text,
  arith, leb,
}
use build_your_own_stuff.Pages.Slices.{overwrite}
use build_your_own_stuff.Pages.Page.{
  Slot, Page, page_size, copy_data, put_slots, serialize_into, serialize, deserialize_page,
  delete_tuple, add_tuple, new_page,
}
use build_your_own_stuff.Pages.Bytes.{
  drop_all, replicate-add, slots_bytes, blank, AreSmall, IsWritable, nothing, header_bytes,
  put_header, put_slots-bytes, copy_at-tail,
}
use build_your_own_stuff.Pages.Tuples.{
  deleted, delete_tuple-deleted, added, add_tuple-added, new_page-IsSound,
}
use build_your_own_stuff.Pages.Stored.{deserialize_page-serialize}

AreSmall-set :
    (i : ℕ) (slots : List Slot)
    → AreSmall slots
    → AreSmall (set slots i (record { offset = 65535; size = 0 }))
AreSmall-set i [] small = small
AreSmall-set zero (slot ∷ slots) small = (omega arith, omega arith, small.2)
AreSmall-set (suc i) (slot ∷ slots) small = (small.0, small.1, AreSmall-set i slots small.2)

deleted-IsWritable :
    (i : ℕ) (p : Page)
    → IsWritable p
    → p.tuple_count ≡ length p.slots
    → i < length p.slots
    → IsWritable (deleted i p)
deleted-IsWritable i p w all h =
    let same = length-set p.slots i (record { offset = 65535; size = 0 }) in
    record {
      filled = w.filled;
      bounded = w.bounded;
      apart = omega (arith, same, w.apart);
      numbered = w.numbered;
      counted = omega (arith, same, all, w.apart, w.bounded);
      small = AreSmall-set i p.slots w.small;
    }

-- For a page of 4096 bytes whose slots end before its free space does and fit the widths of their fields, as its
-- number does, and whose tuple count is that of its slots: deleting any of its slots, writing and reading the page
-- loses the last slot, whichever the deleted one is.
pub deleted_loses_last :
    (i : ℕ) (p : Page)
    → IsWritable p
    → p.tuple_count ≡ length p.slots
    → i < length p.slots
    → (q r : Page) × (bytes : Text) × (delete_tuple i p ≡ some q)
      × (serialize q ≡ some bytes)
      × (deserialize_page bytes ≡ some r)
      × (r.slots ≡ take (length p.slots - 1) (set p.slots i (record { offset = 65535; size = 0 })))
deleted_loses_last i p w all h =
    let q = deleted i p in
    let back = deserialize_page-serialize q (deleted-IsWritable i p w all h) in
    (
      q,
      _,
      back.0,
      delete_tuple-deleted i p h,
      back.1,
      back.4,
      ap (λ n. take n q.slots) {x = (p.tuple_count + 65535) % 2 ^ 16} {y = length p.slots - 1}
          (omega (arith, all, h, w.apart, w.bounded)),
    )

-- A page with one slot and no free space
abbrev full_page : ℕ → ℕ → Slot → Text → Page
full_page id count slot content = record {
  id = id;
  tuple_count = count;
  free_space_offset = 0;
  slots = slot ∷ [];
  content = content;
}

serialize-full_page :
    (id count : ℕ) (slot : Slot) (content : Text)
    → length content ≡ page_size
    → serialize (full_page id count slot content) ≡ some content
unfolding serialize serialize_into
serialize-full_page id count slot content filled =
    let p = full_page id count slot content in
    let rest = nothing (page_size - 12) in
    let written = header_bytes p ++ (slots_bytes p.slots ++ rest) in
    let size : length written ≡ length content =
      length-append (header_bytes p ++ slots_bytes p.slots) rest
      ∙ omega (arith, filled, length-replicate {A = ℕ} (page_size - 12) 0) in
    let inside : leb 0 (length content) ≡ true = ground arith in
    ap (λ buf. serialize_into buf p)
      (sym (
        ap (λ xs. nothing 8 ++ xs) (replicate-add 4 (page_size - 12) (page_size - 8) 0 refl)
        ∙ replicate-add 8 (page_size - 8) page_size 0 refl))
    ∙ ap (λ o. copy_data p (put_slots 0 p.slots o)) (put_header p (blank p.slots ++ rest))
    ∙ ap (copy_data p) (put_slots-bytes 0 p.slots (header_bytes p) rest refl)
    ∙ rw inside (copy_at-tail 0 [] written content refl size)

serialize-full :
    (p : Page) (slot : Slot)
    → p.slots ≡ slot ∷ []
    → p.free_space_offset ≡ 0
    → length p.content ≡ page_size
    → serialize p ≡ some p.content
serialize-full p slot one full filled =
    ap₂ (λ slots free. serialize (record p { slots = slots; free_space_offset = free })) one full
    ∙ serialize-full_page p.id p.tuple_count slot p.content filled

overwrite-whole :
    (start : ℕ) (bytes buf : Text)
    → start ≡ 0
    → length buf ≡ length bytes
    → overwrite start bytes buf ≡ bytes
overwrite-whole start bytes buf e same =
    ap₂ (λ n rest. take n buf ++ (bytes ++ rest)) e
      (drop_all (start + length bytes) buf (omega arith))
    ∙ append-nil bytes

new_page_slots :
    (id : ℕ) (tuple : Text)
    → (added tuple (new_page id)).slots
      ≡ record { offset = (page_size - length tuple) % 2 ^ 16; size = length tuple % 2 ^ 16 } ∷ []
unfolding new_page
new_page_slots id tuple = refl

added_free :
    (id : ℕ) (tuple : Text)
    → length tuple ≡ page_size
    → (added tuple (new_page id)).free_space_offset ≡ 0
unfolding new_page
added_free id tuple long = omega arith

added_content :
    (id : ℕ) (tuple : Text) → length tuple ≡ page_size → (added tuple (new_page id)).content ≡ tuple
unfolding new_page
added_content id tuple long =
    overwrite-whole (page_size - length tuple) tuple (replicate page_size 0) (omega arith)
      (length-replicate {A = ℕ} page_size 0 ∙ sym long)

add_to_new :
    (id : ℕ) (tuple : Text)
    → length tuple ≡ page_size
    → add_tuple tuple (new_page id) ≡ some (some 0, added tuple (new_page id))
unfolding new_page
add_to_new id tuple long =
    add_tuple-added tuple (new_page id) (omega arith) (omega arith) (new_page-IsSound id)

-- A tuple of 4096 bytes is accepted by a new page, and the bytes of the page are then the tuple alone: it has
-- taken the place of the header and of the slots.
pub tuple_overwrites_header :
    (id : ℕ) (tuple : Text)
    → length tuple ≡ page_size
    → (p : Page) × (add_tuple tuple (new_page id) ≡ some (some 0, p)) × (serialize p ≡ some tuple)
tuple_overwrites_header id tuple long =
    let offset = page_size - length tuple in
    let one = new_page_slots id tuple in
    let same = added_content id tuple long in
    (
      added tuple (new_page id),
      add_to_new id tuple long,
      serialize-full (added tuple (new_page id)) _ one (added_free id tuple long)
            (ap length same ∙ long)
          ∙ ap some same,
    )
