-- ===== src/Pages/Shelf.antt =====
-- What a page of database/simple_page_impl/storage/page.go promises: its tuples by their slots, and the room
-- that is left.
use build_your_own_stuff.Prelude.{
  ℕ, zero, suc, ◌+◌, ◌-◌, ◌*◌, ◌≤◌, ◌<◌, ◌≡◌, refl, ap, ap₂, sym, ◌∙◌, Bool-cases, inl, inr, Option,
  none, some, List, [], ◌∷◌, ◌++◌, length, length-map, set, Text, arith, ltb, if◌then◌else◌,
}
use build_your_own_stuff.Pages.Page.{Page, page_size, add_tuple, delete_tuple, new_page}
use build_your_own_stuff.Pages.Slots.{IsSound, tuples, stored}
use build_your_own_stuff.Pages.Tuples.{
  added, deleted, add_tuple-added, add_tuple-refused, added-IsSound, added-tuples,
  delete_tuple-deleted, delete_tuple-refused, deleted-IsSound, deleted-tuples, new_page-IsSound,
}

pub data Operation : Type 0 where
  adds : Text → Operation
  deletes : ℕ → Operation

abbrev pub after_add : Option (Option ℕ × Page) → Option Page
after_add none = none
after_add (some (i, p)) = some p

abbrev pub after_delete : Page → Option Page → Option Page
after_delete p none = some p
after_delete p (some q) = some q

-- One call, with its error ignored as in main.go; `none` is a panic.
unfoldable pub perform : Operation → Page → Option Page
perform (adds tuple) p = after_add (add_tuple tuple p)
perform (deletes i) p = after_delete p (delete_tuple i p)

unfoldable pub perform_all : List Operation → Page → Option Page
perform_all [] p = some p
perform_all (call ∷ calls) p = elim (perform call p) [ none ↦ none | some q ↦ perform_all calls q ]

-- The tuples in the order in which they were added, `none` for one that is deleted, and the bytes that are
-- free.
pub record Shelf : Type 0 where
  pub room : ℕ
  pub tuples : List (Option Text)

abbrev pub place : Operation → Shelf → Shelf
place (adds tuple) s =
    if ltb s.room (length tuple + 2 * length s.tuples)
    then s
    else record { room = s.room - length tuple; tuples = s.tuples ++ some tuple ∷ [] }
place (deletes i) s = record s { tuples = set s.tuples i none }

abbrev pub place_all : List Operation → Shelf → Shelf
place_all [] s = s
place_all (call ∷ calls) s = place_all calls (place call s)

abbrev pub HasTuple : Operation → Type 0
HasTuple (adds tuple) = 0 < length tuple
HasTuple (deletes i) = 0 ≤ 0

abbrev pub HaveTuples : List Operation → Type 0
HaveTuples [] = 0 ≤ 0
HaveTuples (call ∷ calls) = HasTuple call × HaveTuples calls

abbrev pub shelf : Page → Shelf
shelf p = record { room = p.free_space_offset; tuples = tuples p }

set-beyond {ℓ} : {A : Type ℓ} (xs : List A) (i : ℕ) (v : A) → length xs ≤ i → set xs i v ≡ xs
set-beyond [] i v h = refl
set-beyond (x ∷ xs) zero v h = absurd (omega arith)
set-beyond (x ∷ xs) (suc i) v h = ap (λ ys. x ∷ ys) (set-beyond xs i v (omega arith))

perform-place :
    (call : Operation) (p : Page)
    → HasTuple call
    → IsSound p
    → (q : Page) × (perform call p ≡ some q) × IsSound q × (shelf q ≡ place call (shelf p))
unfolding perform
perform-place (adds tuple) p pos s =
    let count = length-map p.slots (stored p.content) in
    elim (Bool-cases (ltb p.free_space_offset (length tuple + 2 * length (tuples p)))) [
      | inl full ↦
          (p, ap after_add (add_tuple-refused tuple p pos (ground arith) s), s, rw full refl)
      | inr fits ↦ (
        added tuple p,
        ap after_add (add_tuple-added tuple p pos (ground arith) s),
        added-IsSound tuple p (ground arith) s,
        rw fits (
            ap₂ (λ r ts. record { room = r; tuples = ts }) (omega (arith, s.bounded))
              (added-tuples tuple p (ground arith) s)),
      )
    ]
perform-place (deletes i) p pos s =
    let count = length-map p.slots (stored p.content) in
    elim (Bool-cases (ltb i (length p.slots))) [
      | inl inside ↦ (
        deleted i p,
        ap (after_delete p) (delete_tuple-deleted i p (ground arith)),
        deleted-IsSound i p s,
        ap (λ ts. record { room = p.free_space_offset; tuples = ts }) (deleted-tuples i p),
      )
      | inr outside ↦ (
        p,
        ap (after_delete p) (delete_tuple-refused i p (ground arith)),
        s,
        ap (λ ts. record { room = p.free_space_offset; tuples = ts })
            (sym (set-beyond (tuples p) i none (ground arith))),
      )
    ]

perform_then : List Operation → Option Page → Option Page
perform_then calls o = elim o [ none ↦ none | some q ↦ perform_all calls q ]

perform_all-place :
    (calls : List Operation) (p : Page)
    → HaveTuples calls
    → IsSound p
    → (q : Page) × (perform_all calls p ≡ some q)
      × IsSound q
      × (shelf q ≡ place_all calls (shelf p))
unfolding perform_all perform_then
perform_all-place [] p pos s = (p, refl, s, refl)
perform_all-place (call ∷ calls) p pos s =
    let (q, first, sound, same) = perform-place call p pos.0 s in
    let more = perform_all-place calls q pos.1 sound in
    (more.0, ap (perform_then calls) first ∙ more.1, more.2, more.3 ∙ ap (place_all calls) same)

-- Any calls of AddTuple and DeleteTuple on a new page, in which no tuple added is empty, give no panic, and
-- leave a page whose tuples are those of the description: each tuple that fitted is kept unchanged until its
-- slot is deleted, and the room of a deleted tuple is never used again.
pub perform_all-place_all :
    (id : ℕ) (calls : List Operation)
    → HaveTuples calls
    → (q : Page) × (perform_all calls (new_page id) ≡ some q)
      × (tuples q ≡ (place_all calls (record { room = page_size; tuples = [] })).tuples)
      × (q.free_space_offset ≡ (place_all calls (record { room = page_size; tuples = [] })).room)
unfolding new_page
perform_all-place_all id calls pos =
    let all = perform_all-place calls (new_page id) pos (new_page-IsSound id) in
    (all.0, all.1, ap (λ s. s.tuples) all.3, ap (λ s. s.room) all.3)
