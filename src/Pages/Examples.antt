-- ===== src/Pages/Examples.antt =====
-- Witnesses for the pages, with a page that holds one tuple.
use build_your_own_stuff.Prelude.{
  ℕ, ◌+◌, ◌-◌, ◌*◌, ◌%◌, ◌^◌, ◌≤◌, ◌<◌, ◌≡◌, ◌≢◌, refl, none, some, List, [], ◌∷◌, ◌++◌, length,
  length-replicate, set, take, drop, replicate, Text, codes, arith,
}
use build_your_own_stuff.Pages.Page.{
  Page, page_size, header_size, slot_size, add_tuple, delete_tuple, serialize, deserialize_page,
  new_page,
}
use build_your_own_stuff.Pages.Slots.{IsSound, tuples}
use build_your_own_stuff.Pages.Tuples.{added, added-IsSound, new_page-IsSound, empty_tuple_panics}
use build_your_own_stuff.Pages.Shelf.{
  Operation, adds, deletes, perform_all, place_all, perform_all-place_all,
}
use build_your_own_stuff.Pages.Bytes.{IsWritable}
use build_your_own_stuff.Pages.Stored.{deserialize_page-serialize}
use build_your_own_stuff.Pages.Losses.{deleted_loses_last, tuple_overwrites_header}
use build_your_own_stuff.Pages.Manager.{read_page, write_page, allocate_new_page, stats}
use build_your_own_stuff.Pages.Placed.{write_page-read_page, allocate_new_page-read_page}

abbrev fig_page : Page
fig_page = added (codes "fig") (new_page 1)

fig_page-IsSound : IsSound fig_page
unfolding new_page
fig_page-IsSound = added-IsSound (codes "fig") (new_page 1) (omega arith) (new_page-IsSound 1)

fig_page-IsWritable : IsWritable fig_page
unfolding new_page
fig_page-IsWritable = record {
  filled = fig_page-IsSound.filled;
  bounded = omega arith;
  apart = omega arith;
  numbered = omega arith;
  counted = omega arith;
  small = (omega arith, omega arith, omega arith);
}

fig_page_counted : fig_page.tuple_count ≡ length fig_page.slots
unfolding new_page
fig_page_counted = refl

fig_page_slot : 0 < length fig_page.slots
unfolding new_page
fig_page_slot = omega arith

-- A file of two pages
abbrev disk : Text
disk = replicate (2 * page_size) 0

abbrev calls : List Operation
calls = adds (codes "fig") ∷ adds (codes "lime") ∷ deletes 0 ∷ adds (codes "date") ∷ []

place_all_test :
    place_all calls (record { room = page_size; tuples = [] })
    ≡ record { room = 4085; tuples = none ∷ some (codes "lime") ∷ some (codes "date") ∷ [] }
place_all_test = refl

perform_all-place_all_example :
    (q : Page) × (perform_all calls (new_page 1) ≡ some q)
    × (tuples q ≡ (place_all calls (record { room = page_size; tuples = [] })).tuples)
    × (q.free_space_offset ≡ (place_all calls (record { room = page_size; tuples = [] })).room)
perform_all-place_all_example =
    perform_all-place_all 1 calls
      (omega arith, (omega arith, (omega arith, (omega arith, omega arith))))

empty_tuple_panics_test : (q : Page) × (delete_tuple 0 fig_page ≡ some q) × (add_tuple [] q ≡ none)
empty_tuple_panics_test = empty_tuple_panics 0 fig_page fig_page-IsSound fig_page_slot

deserialize_page-serialize_example :
    (bytes : Text) × (serialize fig_page ≡ some bytes)
    × (length bytes ≡ page_size)
    × (drop fig_page.free_space_offset bytes ≡ drop fig_page.free_space_offset fig_page.content)
    × (deserialize_page bytes
        ≡ some (record fig_page {
          slots = take fig_page.tuple_count fig_page.slots;
          content =
              drop (header_size + fig_page.tuple_count * slot_size) bytes
              ++ replicate (header_size + fig_page.tuple_count * slot_size) 0;
        }))
deserialize_page-serialize_example = deserialize_page-serialize fig_page fig_page-IsWritable

deleted_loses_last_example :
    (q r : Page) × (bytes : Text) × (delete_tuple 0 fig_page ≡ some q)
    × (serialize q ≡ some bytes)
    × (deserialize_page bytes ≡ some r)
    × (r.slots
        ≡ take
            (length fig_page.slots - 1)
            (set fig_page.slots 0 (record { offset = 65535; size = 0 })))
deleted_loses_last_example =
    deleted_loses_last 0 fig_page fig_page-IsWritable fig_page_counted fig_page_slot

tuple_overwrites_header_example :
    (p : Page) × (add_tuple (replicate page_size 7) (new_page 1) ≡ some (some 0, p))
    × (serialize p ≡ some (replicate page_size 7))
tuple_overwrites_header_example =
    tuple_overwrites_header 1 (replicate page_size 7) (length-replicate {A = ℕ} page_size 7)

write_page-read_page_example :
    (file' bytes : Text) × (q : Page) × (serialize fig_page ≡ some bytes)
    × (deserialize_page bytes ≡ some q)
    × (write_page fig_page disk ≡ some file')
    × (read_page fig_page.id file' ≡ some (some q))
    × ((id : ℕ)
        → id ≢ fig_page.id
        → (id + 1) * page_size ≤ length disk
        → read_page id file' ≡ read_page id disk)
write_page-read_page_example = write_page-read_page fig_page disk fig_page-IsWritable

allocate_new_page-read_page_example :
    (file' : Text) × (allocate_new_page [] ≡ some (new_page 0, file'))
    × (read_page 0 file' ≡ some (some (new_page 0)))
    × (stats file' ≡ ((0 + 1) % 2 ^ 32, (0 + 1) * page_size))
    × ((id : ℕ) → id < 0 → read_page id file' ≡ read_page id [])
allocate_new_page-read_page_example = allocate_new_page-read_page 0 [] refl (omega arith)
