-- ===== src/Pages/Placed.antt =====
-- The pages that database/simple_page_impl/storage/page_,manager.go writes and reads in one file.
use build_your_own_stuff.Prelude.{
  ℕ, ◌+◌, ◌-◌, ◌*◌, ◌/◌, ◌%◌, ◌^◌, ◌≤◌, ◌<◌, ◌≡◌, ◌≢◌, ◌⊎◌, inl, inr, refl, ap, sym, ◌∙◌,
  Bool-cases, Option, none, some, [], ◌++◌, append-nil, length, length-replicate, Text, arith, ltb,
}
use build_your_own_stuff.Pages.Page.{Page, page_size, serialize, deserialize_page, new_page}
use build_your_own_stuff.Pages.Bytes.{
  replicate-add, drop_all, IsWritable, nothing, image, serialize-image,
}
use build_your_own_stuff.Pages.Stored.{length-image, reread, deserialize_page-image}
use build_your_own_stuff.Pages.Manager.{
  read_at, write_at, read_result, read_page, write_result, write_page, allocate_new_page, stats,
}
use build_your_own_stuff.Pages.FileBytes.{length-write_at, read_at-written, read_at-kept}

apart :
    (id id' size : ℕ)
    → size ≡ page_size
    → id ≢ id'
    → id * page_size + page_size ≤ id' * page_size ⊎ id' * page_size + size ≤ id * page_size
apart id id' size long other = elim (Bool-cases (ltb id id')) [
  | inl low ↦ inl (ground arith)
  | inr high ↦ inr (ground (arith, other))
]

-- The file that a page is written to
abbrev written : Page → Text → Text
written p file = write_at (p.id * page_size) (image p) file

write_page-written :
    (p : Page) (file : Text) → IsWritable p → write_page p file ≡ some (written p file)
unfolding write_page
write_page-written p file w = ap (write_result p file) (serialize-image p w)

read_page-written :
    (p : Page) (file : Text)
    → IsWritable p
    → read_page p.id (written p file) ≡ some (some (reread p))
unfolding read_page
read_page-written p file w =
    ap read_result (
      ap (λ n. read_at n (p.id * page_size) (written p file)) {x = page_size} {y = length (image p)}
        (sym (length-image p w))
      ∙ read_at-written (p.id * page_size) (image p) file)
    ∙ ap (λ o. elim o [ none ↦ none | some q ↦ some (some q) ]) (deserialize_page-image p w)

read_page-others :
    (p : Page) (file : Text) (id : ℕ)
    → IsWritable p
    → id ≢ p.id
    → (id + 1) * page_size ≤ length file
    → read_page id (written p file) ≡ read_page id file
unfolding read_page
read_page-others p file id w other inside = ap read_result (
    read_at-kept (p.id * page_size) (image p) file page_size (id * page_size)
      (apart id p.id (length (image p)) (length-image p w) other) (omega arith))

-- Writing a page of 4096 bytes whose slots end before its free space does, with at least as many slots as its
-- tuple count, and whose number and slots fit the widths of their fields, succeeds and leaves each other page that
-- is whole in the file as it was, and reading the page gives what DeserializePage makes of its bytes.
pub write_page-read_page :
    (p : Page) (file : Text)
    → IsWritable p
    → (file' bytes : Text) × (q : Page) × (serialize p ≡ some bytes)
      × (deserialize_page bytes ≡ some q)
      × (write_page p file ≡ some file')
      × (read_page p.id file' ≡ some (some q))
      × ((id : ℕ)
          → id ≢ p.id
          → (id + 1) * page_size ≤ length file
          → read_page id file' ≡ read_page id file)
write_page-read_page p file w = (
  written p file,
  image p,
  reread p,
  serialize-image p w,
  deserialize_page-image p w,
  write_page-written p file w,
  read_page-written p file w,
  λ id other inside. read_page-others p file id w other inside,
)

new_page-IsWritable : (id : ℕ) → id < 2 ^ 32 → IsWritable (new_page id)
unfolding new_page
new_page-IsWritable id h = record {
  filled = length-replicate {A = ℕ} page_size 0;
  bounded = omega arith;
  apart = omega arith;
  numbered = h;
  counted = omega arith;
  small = omega arith;
}

reread-new_page : (id : ℕ) → reread (new_page id) ≡ new_page id
unfolding new_page
reread-new_page id =
    ap
      (λ content. record {
        id = id;
        tuple_count = 0;
        free_space_offset = page_size;
        slots = [];
        content = content;
      })
      (ap (λ rest. (nothing (page_size - 8) ++ rest) ++ nothing 8)
          (drop_all page_size (nothing page_size)
            (omega (arith, length-replicate {A = ℕ} page_size 0)))
        ∙ ap (λ front. front ++ nothing 8) (append-nil (nothing (page_size - 8)))
        ∙ replicate-add (page_size - 8) 8 page_size 0 refl)

allocate_then : Page → Option Text → Option (Page × Text)
allocate_then p o = elim o [ none ↦ none | some file' ↦ some (p, file') ]

-- A new page at the end of a file
write_new :
    (n : ℕ) (file : Text)
    → n < 2 ^ 32
    → (file' : Text) × (write_page (new_page n) file ≡ some file')
      × (read_page n file' ≡ some (some (new_page n)))
      × (length file' ≡ n * page_size + page_size + (length file - (n * page_size + page_size)))
      × ((id : ℕ)
          → id ≢ n
          → (id + 1) * page_size ≤ length file
          → read_page id file' ≡ read_page id file)
unfolding new_page
write_new n file small =
    let w = new_page-IsWritable n small in
    (
      written (new_page n) file,
      write_page-written (new_page n) file w,
      read_page-written (new_page n) file w ∙ ap (λ q. some (some q)) (reread-new_page n),
      length-write_at (n * page_size) (image (new_page n)) file
          ∙ omega (arith, length-image (new_page n) w),
      λ id other inside. read_page-others (new_page n) file id w other inside,
    )

-- In a file of whole pages, fewer than 2^32, AllocateNewPage gives a page whose number is how many there were,
-- reading that page gives it again, the others are left as they were, and Stats counts one page more.
pub allocate_new_page-read_page :
    (n : ℕ) (file : Text)
    → length file ≡ n * page_size
    → n < 2 ^ 32
    → (file' : Text) × (allocate_new_page file ≡ some (new_page n, file'))
      × (read_page n file' ≡ some (some (new_page n)))
      × (stats file' ≡ ((n + 1) % 2 ^ 32, (n + 1) * page_size))
      × ((id : ℕ) → id < n → read_page id file' ≡ read_page id file)
unfolding allocate_new_page stats allocate_then
allocate_new_page-read_page n file whole small =
    let counted : length file / page_size % 2 ^ 32 ≡ n = omega arith in
    let there = write_new n file small in
    (
      there.0,
      ap (λ k. allocate_then (new_page k) (write_page (new_page k) file)) counted
          ∙ ap (allocate_then (new_page n)) there.1,
      there.2,
      ap (λ k. (k / page_size % 2 ^ 32, k)) {x = length there.0} {y = (n + 1) * page_size}
            (omega (arith, there.3))
          ∙ ap (λ k. (k, (n + 1) * page_size)) {x = (n + 1) * page_size / page_size % 2 ^ 32}
              {y = (n + 1) % 2 ^ 32} (omega arith),
      λ id low. there.4 id (omega arith) (omega arith),
    )
