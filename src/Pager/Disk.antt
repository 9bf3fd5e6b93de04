-- ===== src/Pager/Disk.antt =====
-- The main file as the pages of it, and the maps from page ids to bodies that are written to it.
-- Page ids are such that `int64(pageID) * PageSize` does not overflow; reads and writes succeed
-- but for a read past the end.
use plomvix.Base.{
  ℕ, zero, suc, ◌<◌, ◌≤◌, ◌≡◌, ◌≢◌, refl, ap, List, [], ◌∷◌, length, get_elem?, ◌==◌, if◌then◌else◌,
  Option, none, some, Result, ok, err, arith, ◌>>=◌,
}
use plomvix.Pager.{Error, io_read, page_size}
use plomvix.Pager.Page.{zeros, encode_data_page, decode_data_page}

-- WriteAt at the offset of a page: the gap behind the old end is zero bytes.
abbrev pub write_at : ℕ → List ℕ → List (List ℕ) → List (List ℕ)
write_at zero image [] = image ∷ []
write_at zero image (x ∷ disk) = image ∷ disk
write_at (suc k) image [] = zeros page_size ∷ write_at k image []
write_at (suc k) image (x ∷ disk) = x ∷ write_at k image disk

pub get-write_at :
    (k : ℕ) (image : List ℕ) (disk : List (List ℕ))
    → get_elem? (write_at k image disk) k ≡ some image
get-write_at zero image [] = refl
get-write_at zero image (x ∷ disk) = refl
get-write_at (suc k) image [] = get-write_at k image []
get-write_at (suc k) image (x ∷ disk) = get-write_at k image disk

pub get-write_at_other :
    (k j : ℕ) (image : List ℕ) (disk : List (List ℕ))
    → k ≢ j
    → k ≤ length disk
    → get_elem? (write_at k image disk) j ≡ get_elem? disk j
get-write_at_other zero zero image disk ne h = absurd (ne refl)
get-write_at_other zero (suc j) image [] ne h = refl
get-write_at_other zero (suc j) image (x ∷ disk) ne h = refl
get-write_at_other (suc k) j image [] ne h = absurd (omega arith)
get-write_at_other (suc k) zero image (x ∷ disk) ne h = refl
get-write_at_other (suc k) (suc j) image (x ∷ disk) ne h =
    get-write_at_other k j image disk (λ e. ne (ap suc e)) (omega arith)

pub length-write_at :
    (k : ℕ) (image : List ℕ) (disk : List (List ℕ))
    → k < length disk
    → length (write_at k image disk) ≡ length disk
length-write_at k image [] h = absurd (omega arith)
length-write_at zero image (x ∷ disk) h = refl
length-write_at (suc k) image (x ∷ disk) h = ap suc (length-write_at k image disk (omega arith))

pub length-write_at_grown :
    (k : ℕ) (image : List ℕ) (disk : List (List ℕ))
    → k ≤ length disk
    → length (write_at k image disk) ≤ suc (length disk)
length-write_at_grown zero image [] h = omega arith
length-write_at_grown zero image (x ∷ disk) h = omega arith
length-write_at_grown (suc k) image [] h = absurd (omega (arith, h))
length-write_at_grown (suc k) image (x ∷ disk) h =
    omega (arith, length-write_at_grown k image disk (omega (arith, h)))

-- The Go map from page ids to bodies; its iteration order is the list's.
abbrev pub lookup : ℕ → List (ℕ × List ℕ) → Option (List ℕ)
lookup k [] = none
lookup k ((j, b) ∷ m) = if j == k then some b else lookup k m

abbrev pub put : ℕ → List ℕ → List (ℕ × List ℕ) → List (ℕ × List ℕ)
put k body [] = (k, body) ∷ []
put k body ((j, b) ∷ m) = if j == k then (k, body) ∷ m else (j, b) ∷ put k body m

module _ (crc32 : List ℕ → ℕ) where
  -- readBodyUnchecked
  unfoldable pub read_body_unchecked : List (List ℕ) → ℕ → Result Error (List ℕ)
  read_body_unchecked disk page_id = elim (get_elem? disk page_id) [
    | none ↦ err io_read
    | some image ↦ decode_data_page crc32 image
  ]

  -- writeBodyUnchecked
  unfoldable pub write_body_unchecked : List (List ℕ) → ℕ → List ℕ → Result Error (List (List ℕ))
  write_body_unchecked disk page_id body =
      encode_data_page crc32 body >>= λ image. ok (write_at page_id image disk)

  -- The loop that writes a buffer's pages, with the disk as it is at an early return.
  unfoldable pub write_pages :
      List (ℕ × List ℕ) → List (List ℕ) → List (List ℕ) × Result Error (Unit {0})
  write_pages [] disk = (disk, ok tt)
  write_pages ((page_id, body) ∷ m) disk = elim (write_body_unchecked disk page_id body) [
    | ok file ↦ write_pages m file
    | err e ↦ (disk, err e)
  ]
