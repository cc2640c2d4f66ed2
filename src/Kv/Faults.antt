-- ===== src/Kv/Faults.antt =====
-- Where the storage engines of simple-kv-cpp lose what they were given.
use mathlib.Core.List.{Permᴰ}
use mathlib.Core.Logic.{∥∥₁_elim}
use build_your_own_stuff.Prelude.{
  ◌≡◌, refl, ap, ◌∙◌, true, false, none, some, List, [], ◌∷◌, ◌++◌, append_assoc, arith, Text,
  codes, text_eq, text_eq_refl, Lacks, Lacks-append, Perm, find-Lacks,
}
use build_your_own_stuff.Kv.Table.{Entry, Table, lookup, assign, lookup-assign}
use build_your_own_stuff.Kv.Engine.{is_empty}
use build_your_own_stuff.Kv.FileFormat.{
  newline, equals_sign, serialize, lines, lines-append_newline, lines-nil, load_line,
  load_line-entry_line, load_lines, IsCleanKey, IsCleanValue,
}
use build_your_own_stuff.Kv.File.{quoted, FileBasedStorageEngine, restart, write, read}

perm-nil : {A : Type 0} {xs ys : List A} → Permᴰ xs ys → ys ≡ [] → xs ≡ []
perm-nil Permᴰ.nil e = refl
perm-nil (Permᴰ.cons p r) e = cc
perm-nil (Permᴰ.swap p q) e = cc
perm-nil (Permᴰ.trans r s) e = perm-nil r (perm-nil s e)

perm-one : {A : Type 0} {xs ys : List A} (a : A) → Permᴰ xs ys → ys ≡ a ∷ [] → xs ≡ a ∷ []
perm-one a Permᴰ.nil e = e
perm-one a (Permᴰ.cons {l₁ = xs} {l₂ = ys} p r) e = cc (p, perm-nil r (ground arith))
perm-one a (Permᴰ.swap p q) e = ground arith
perm-one a (Permᴰ.trans r s) e = perm-one a r (perm-one a s e)

Table-set : IsSet Table
Table-set = hlevel

load_line-skip : (m : Table) (w : Text) → Lacks equals_sign w → load_line m w ≡ m
unfolding load_line
load_line-skip m w h = rw (find-Lacks equals_sign w h, load_line) refl

load_lines-two :
    (k v w : Text)
    → Lacks equals_sign k
    → Lacks equals_sign w
    → load_lines [] ((k ++ equals_sign ∷ v) ∷ w ∷ []) ≡ (k, v) ∷ []
unfolding load_lines assign
load_lines-two k v w hk hw = load_line-skip _ w hw ∙ load_line-entry_line [] k v hk

load_lines-one :
    (k v : Text) → Lacks equals_sign k → load_lines [] ((k ++ equals_sign ∷ v) ∷ []) ≡ (k, v) ∷ []
unfolding load_lines assign
load_lines-one k v hk = load_line-entry_line [] k v hk

longer-ne : (a b : Text) → text_eq a (a ++ equals_sign ∷ b) ≡ false
unfolding text_eq
longer-ne [] b = refl
longer-ne (x ∷ a) b = ground (arith, longer-ne a b)

append-not_empty : (a b : Text) → is_empty a ≡ false → is_empty (a ++ b) ≡ false
append-not_empty [] b h = cc
append-not_empty (x ∷ a) b h = refl

-- If the file cannot be opened for writing, a write of a non-empty key still reports success: the
-- engine holds the value, a message is printed, and the file is as it was.
pub write-unwritable :
    (order : Table → Table) (k v : Text) (e : FileBasedStorageEngine)
    → is_empty k ≡ false
    → e.disk.writable ≡ false
    → ((write order k v e).0 ≡ true)
      × ((read k (write order k v e).1).0 ≡ some v)
      × ((write order k v e).1.disk ≡ e.disk)
      × ((write order k v e).1.cerr
          ≡ e.cerr ++ (codes "Error: Cannot open file for writing: " ++ quoted e.file_path) ∷ [])
unfolding write read
write-unwritable order k v e g w = (
  rw g refl,
  ground (arith, lookup-assign k k v e.store, text_eq_refl k),
  ground arith,
  ground arith,
)

lookup-here : (k v : Text) → lookup k ((k, v) ∷ []) ≡ some v
unfolding lookup
lookup-here k v = rw (text_eq_refl k) refl

lookup-other : (k j v : Text) → text_eq k j ≡ false → lookup j ((k, v) ∷ []) ≡ none
unfolding lookup
lookup-other k j v h = rw h refl

module _ (order : Table → Table) (visits : (m : Table) → Perm (order m) m) where
  order-one : (entry : Entry) → order (entry ∷ []) ≡ entry ∷ []
  order-one entry =
      ∥∥₁_elim (visits (entry ∷ [])) (Table-set _ _)
        (λ (r : Permᴰ (order (entry ∷ [])) (entry ∷ [])). perm-one entry r refl)

  -- What a restart loads after one write into an empty store.
  store-restart-write :
      (k v : Text) (e : FileBasedStorageEngine)
      → is_empty k ≡ false
      → e.store ≡ []
      → e.disk.readable ≡ true
      → e.disk.writable ≡ true
      → (restart (write order k v e).1).store
        ≡ load_lines [] (lines ((k ++ equals_sign ∷ v) ++ newline ∷ []))
  unfolding restart write assign serialize
  store-restart-write k v e g s r w = rw (g, s, order-one, w, r) refl

  read-load :
      (j k v : Text) (e : FileBasedStorageEngine) (t : Text)
      → is_empty j ≡ false
      → is_empty k ≡ false
      → e.store ≡ []
      → e.disk.readable ≡ true
      → e.disk.writable ≡ true
      → lines ((k ++ equals_sign ∷ v) ++ newline ∷ []) ≡ lines t
      → (read j (restart (write order k v e).1)).0 ≡ lookup j (load_lines [] (lines t))
  unfolding read
  read-load j k v e t gj gk s r w p =
      rw gj (ap (lookup j) (store-restart-write k v e gk s r w ∙ ap (load_lines []) p))

  -- With a file that can be opened and an empty store, a value with a newline that is written
  -- under a clean key comes back after a restart cut off there, if its second line is clean
  -- and holds no '='.
  pub newline_cuts_value :
      (k v w : Text) (e : FileBasedStorageEngine)
      → is_empty k ≡ false
      → IsCleanKey k
      → IsCleanValue v
      → IsCleanKey w
      → e.store ≡ []
      → e.disk.readable ≡ true
      → e.disk.writable ≡ true
      → (read k (restart (write order k (v ++ newline ∷ w) e).1)).0 ≡ some v
  newline_cuts_value k v w e g ck cv cw s r wr =
      read-load k k (v ++ newline ∷ w) e ((k ++ equals_sign ∷ v) ++ newline ∷ (w ++ newline ∷ [])) g
        g s r wr (simp append_assoc refl)
      ∙ ap (λ ls. lookup k (load_lines [] ls)) two_lines
      ∙ ap (lookup k) (load_lines-two k v w ck.0 cw.0)
      ∙ lookup-here k v
    where
      two_lines :
          lines ((k ++ equals_sign ∷ v) ++ newline ∷ (w ++ newline ∷ []))
          ≡ (k ++ equals_sign ∷ v) ∷ w ∷ []
      two_lines =
          lines-append_newline (k ++ equals_sign ∷ v) (w ++ newline ∷ [])
            (Lacks-append newline k (equals_sign ∷ v) ck.1 (refl, cv))
          ∙ ap (◌∷◌ (k ++ equals_sign ∷ v)) (lines-append_newline w [] cw.1 ∙ ap (◌∷◌ w) lines-nil)

  -- With a file that can be opened and an empty store, a key with an '=' that is written is
  -- not there after a restart: its value stands, with a part of the key in front, under the
  -- part of the key before the first '='.
  pub equals_cuts_key :
      (a b v : Text) (e : FileBasedStorageEngine)
      → is_empty a ≡ false
      → IsCleanKey a
      → Lacks newline b
      → IsCleanValue v
      → e.store ≡ []
      → e.disk.readable ≡ true
      → e.disk.writable ≡ true
      → let e' = restart (write order (a ++ equals_sign ∷ b) v e).1 in
        ((read (a ++ equals_sign ∷ b) e').0 ≡ none) × ((read a e').0 ≡ some (b ++ equals_sign ∷ v))
  equals_cuts_key a b v e g ca nb cv s r w = (
    loaded (a ++ equals_sign ∷ b) (append-not_empty a (equals_sign ∷ b) g)
        ∙ lookup-other a (a ++ equals_sign ∷ b) (b ++ equals_sign ∷ v) (longer-ne a b),
    loaded a g ∙ lookup-here a (b ++ equals_sign ∷ v),
  )
    where
      one_line :
          lines ((a ++ equals_sign ∷ (b ++ equals_sign ∷ v)) ++ newline ∷ [])
          ≡ (a ++ equals_sign ∷ (b ++ equals_sign ∷ v)) ∷ []
      one_line =
          lines-append_newline (a ++ equals_sign ∷ (b ++ equals_sign ∷ v)) [] (
            Lacks-append newline a (equals_sign ∷ (b ++ equals_sign ∷ v)) ca.1
              (refl, Lacks-append newline b (equals_sign ∷ v) nb (refl, cv)))
          ∙ ap (◌∷◌ (a ++ equals_sign ∷ (b ++ equals_sign ∷ v))) lines-nil

      loaded :
          (j : Text)
          → is_empty j ≡ false
          → (read j (restart (write order (a ++ equals_sign ∷ b) v e).1)).0
            ≡ lookup j ((a, b ++ equals_sign ∷ v) ∷ [])
      loaded j gj =
          read-load j (a ++ equals_sign ∷ b) v e
            ((a ++ equals_sign ∷ (b ++ equals_sign ∷ v)) ++ newline ∷ []) gj
            (append-not_empty a (equals_sign ∷ b) g) s r w (simp append_assoc refl)
          ∙ ap (λ ls. lookup j (load_lines [] ls)) one_line
          ∙ ap (lookup j) (load_lines-one a (b ++ equals_sign ∷ v) ca.0)
