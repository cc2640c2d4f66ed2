-- ===== src/Pages/Manager.antt =====
-- database/simple_page_impl/storage/page_,manager.go: pages in a file. The file is its bytes; errors of the
-- disk are left out.
use build_your_own_stuff.Prelude.{
  ℕ, ◌+◌, ◌-◌, ◌*◌, ◌/◌, ◌%◌, ◌^◌, Option, none, some, ◌++◌, length, take, drop, replicate, Text,
  leb, if◌then◌else◌,
}
use build_your_own_stuff.Pages.Page.{Page, page_size, serialize, deserialize_page, new_page}

-- ReadAt, where reading less than the bytes wanted is the error io.EOF
unfoldable pub read_at : ℕ → ℕ → Text → Option Text
read_at count offset file =
    if leb (offset + count) (length file) then some (take count (drop offset file)) else none

-- WriteAt, which fills what it skips with zeros
unfoldable pub write_at : ℕ → Text → Text → Text
write_at offset bytes file =
    take offset (file ++ replicate (offset - length file) 0)
    ++ (bytes ++ drop (offset + length bytes) file)

abbrev pub read_result : Option Text → Option (Option Page)
read_result none = some none
read_result (some bytes) = elim (deserialize_page bytes) [ none ↦ none | some p ↦ some (some p) ]

-- ReadPage: `some none` is its error, `none` a panic.
unfoldable pub read_page : ℕ → Text → Option (Option Page)
read_page id file = read_result (read_at page_size (id * page_size) file)

abbrev pub write_result : Page → Text → Option Text → Option Text
write_result p file none = none
write_result p file (some bytes) = some (write_at (p.id * page_size) bytes file)

-- WritePage gives the file; `none` is a panic.
unfoldable pub write_page : Page → Text → Option Text
write_page p file = write_result p file (serialize p)

-- AllocateNewPage gives the page and the file.
unfoldable pub allocate_new_page : Text → Option (Page × Text)
allocate_new_page file =
    let p = new_page (length file / page_size % 2 ^ 32) in
    elim (write_page p file) [ none ↦ none | some file' ↦ some (p, file') ]

-- Stats: the number of pages and the size of the file
unfoldable pub stats : Text → ℕ × ℕ
stats file = (length file / page_size % 2 ^ 32, length file)
