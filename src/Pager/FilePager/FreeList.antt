-- ===== src/Pager/FilePager/FreeList.antt =====
-- FreePage followed by AllocatePage.
use plomvix.Base.{
  ℕ, suc, ◌-◌, ◌≤◌, ◌<◌, ◌≡◌, ◌≢◌, refl, sym, ap, ◌∙◌, Bool, true, false, List, [], ◌∷◌, length,
  ◌==◌, ◌||◌, leb, none, ok, arith, ==_ne, ==_iff, Bool-cases, inl, inr, ◌⊎◌,
}
use mathlib.Core.Bool.{true≢false}
use mathlib.Core.Path.{subst}
use plomvix.Base.Int.{IsU64}
use plomvix.Pager.{invalid_page_id, already_free, tx_unsupported_op, body_size, sentinel, IsCrc32}
use plomvix.Pager.Page.{
  zeros, length-zeros, encode_free_list_pointer, decode_free_list_pointer,
  length-encode_free_list_pointer, decode-encode_free_list_pointer,
}
use plomvix.Pager.Disk.{
  write_at, get-write_at_other, length-write_at, read_body_unchecked, write_body_unchecked,
}
use plomvix.Pager.FilePager.{
  FilePager, is_open, when, contains, delete, check_state, write_header, read_page, allocate_page,
  free_page,
}
use plomvix.Pager.FilePager.Reads.{
  IsInUse, write_body-read_body, guard-pass, reads_outside, outside_result, direct_lem,
}

module _ (crc32 : List ℕ → ℕ) where
  -- A header write leaves the data pages.
  header_pages :
      (image : List ℕ) (disk : List (List ℕ)) (j : ℕ)
      → 2 ≤ j
      → 1 < length disk
      → (read_body_unchecked crc32 (write_at 0 image (write_at 1 image disk)) j
          ≡ read_body_unchecked crc32 disk j)
        × (length (write_at 0 image (write_at 1 image disk)) ≡ length disk)
  unfolding read_body_unchecked
  header_pages image disk j two long = (
    rw
        (
          read_body_unchecked,
          get-write_at_other 0 j image (write_at 1 image disk) (λ e. omega (arith, two, e))
              (omega arith),
          get-write_at_other 1 j image disk (λ e. omega (arith, two, e)) (omega (arith, long)),
        )
        refl,
    length-write_at 0 image (write_at 1 image disk)
          (omega (arith, long, length-write_at 1 image disk long))
        ∙ length-write_at 1 image disk long,
  )

  pub write_header-reads :
      (p : FilePager) (n h j : ℕ)
      → 2 ≤ j
      → 1 < length p.main_file
      → (read_body_unchecked crc32 ((write_header crc32 p n h).main_file) j
          ≡ read_body_unchecked crc32 p.main_file j)
        × (length ((write_header crc32 p n h).main_file) ≡ length p.main_file)
  unfolding write_header
  write_header-reads p n h j two long = header_pages _ p.main_file j two long

  -- What FreePage leaves, the page's body having been written.
  freed : FilePager → ℕ → List (List ℕ) → FilePager
  freed p k file =
      write_header crc32
        (record p {
          main_file = file;
          free_set = k ∷ p.free_set;
          free_list_head = k;
          free_count = suc p.free_count;
        })
        p.page_count k

  free_lem :
      (p : FilePager) (k : ℕ) (file : List (List ℕ))
      → IsInUse p k
      → p.in_txn ≡ false
      → write_body_unchecked crc32 p.main_file k (encode_free_list_pointer p.free_list_head)
        ≡ ok file
      → free_page crc32 none p k ≡ (freed p k file, ok tt)
  unfolding free_page freed
  free_lem p k file u out w =
      guard-pass (check_state p.state) p _ (ap check_state u.opened)
      ∙ guard-pass _ p _ (ap (λ b. when b tx_unsupported_op) out)
      ∙ guard-pass _ p _ (ap (λ b. when b invalid_page_id) (not_zero k u.is_data))
      ∙ guard-pass _ p _ (ap (λ b. when b invalid_page_id) (in_range k p.page_count u.counted))
      ∙ guard-pass _ p _ (ap (λ b. when b already_free) u.not_free)
      ∙ direct_lem crc32 p k (encode_free_list_pointer p.free_list_head) file _ w
    where
      not_zero : (k : ℕ) → 2 ≤ k → (k == 0) ≡ false
      not_zero k h = ground arith

      in_range : (k n : ℕ) → k < n → leb n k ≡ false
      in_range k n h = ground arith

  -- What AllocatePage leaves where it takes the head of the free list.
  reused : FilePager → ℕ → List (List ℕ) → FilePager
  reused p next file =
      write_header crc32
        (record p {
          main_file = file;
          free_set = delete p.free_list_head p.free_set;
          free_list_head = next;
          free_count = p.free_count - 1;
        })
        p.page_count next

  allocate_lem :
      (p : FilePager) (next : ℕ) (body : List ℕ) (file : List (List ℕ))
      → p.state ≡ is_open
      → p.in_txn ≡ false
      → p.free_list_head ≢ sentinel
      → read_body_unchecked crc32 p.main_file p.free_list_head ≡ ok body
      → decode_free_list_pointer body ≡ ok next
      → write_body_unchecked crc32 p.main_file p.free_list_head (zeros body_size) ≡ ok file
      → allocate_page crc32 none p ≡ (reused p next file, ok p.free_list_head)
  unfolding allocate_page reused
  allocate_lem p next body file o out ne r d w =
      guard-pass (check_state p.state) p _ (ap check_state o)
      ∙ guard-pass _ p _ (ap (λ b. when b tx_unsupported_op) out)
      ∙ (rw (==_ne p.free_list_head sentinel ne, r, d)
          (direct_lem crc32 p p.free_list_head (zeros body_size) file _ w))

contains-delete : (k : ℕ) (s : List ℕ) → contains k (delete k s) ≡ false
contains-delete k [] = refl
contains-delete k (j ∷ s) = elim (Bool-cases (j == k)) [
  | inl e ↦ rw e (contains-delete k s)
  | inr e ↦ rw (e, e) (contains-delete k s)
]

contains-delete_other :
    (k j : ℕ) (s : List ℕ) → contains j s ≡ false → contains j (delete k s) ≡ false
contains-delete_other k j [] h = refl
contains-delete_other k j (i ∷ s) h = elim (Bool-cases (i == k)) [
  | inl e ↦ rw e (contains-delete_other k j s (rest (i == j) (contains j s) h))
  | inr e ↦
      rw e (kept (i == j) (contains j s) (contains j (delete k s)) h (contains-delete_other k j s))
]
  where
    rest : (a b : Bool) → (a || b) ≡ false → b ≡ false
    rest true b h = absurd (true≢false h)
    rest false b h = h

    kept : (a b c : Bool) → (a || b) ≡ false → (b ≡ false → c ≡ false) → (a || c) ≡ false
    kept true b c h f = h
    kept false b c h f = f h

module _ (crc32 : List ℕ → ℕ) (crc : IsCrc32 crc32) where
  free-IsInUse :
      (p q : FilePager) (j : ℕ)
      → q.state ≡ p.state
      → q.page_count ≡ p.page_count
      → length q.main_file ≡ length p.main_file
      → contains j q.free_set ≡ false
      → IsInUse p j
      → IsInUse q j
  free-IsInUse p q j e1 e2 e3 c u = record {
    opened = e1 ∙ u.opened;
    is_data = u.is_data;
    counted = omega (arith, e2, u.counted);
    not_free = c;
    in_file = omega (arith, e3, u.in_file);
  }

  freed-reads :
      (p : FilePager) (k : ℕ) (file : List (List ℕ)) (j : ℕ)
      → 2 ≤ j
      → 1 < length file
      → (read_body_unchecked crc32 ((freed crc32 p k file).main_file) j
          ≡ read_body_unchecked crc32 file j)
        × (length ((freed crc32 p k file).main_file) ≡ length file)
  unfolding freed
  freed-reads p k file j two h = write_header-reads crc32 _ p.page_count k j two h

  reused-reads :
      (p : FilePager) (next : ℕ) (file : List (List ℕ)) (j : ℕ)
      → 2 ≤ j
      → 1 < length file
      → (read_body_unchecked crc32 ((reused crc32 p next file).main_file) j
          ≡ read_body_unchecked crc32 file j)
        × (length ((reused crc32 p next file).main_file) ≡ length file)
  unfolding reused
  reused-reads p next file j two h = write_header-reads crc32 _ p.page_count next j two h

  -- The pages in use when a page has been freed and taken again.
  cycle-IsInUse :
      (p : FilePager) (k next : ℕ) (file file2 : List (List ℕ))
      → 1 < length file2
      → length file2 ≡ length p.main_file
      → (j : ℕ) → IsInUse p j
      → IsInUse (reused crc32 (freed crc32 p k file) next file2) j
  unfolding freed reused write_header
  cycle-IsInUse p k next file file2 long same j u =
      free-IsInUse p (reused crc32 (freed crc32 p k file) next file2) j refl refl
        ((reused-reads (freed crc32 p k file) next file2 j u.is_data long).1 ∙ same)
        (without (Bool-cases (k == j))) u
    where
      without :
          ((k == j) ≡ true) ⊎ ((k == j) ≡ false) → contains j (delete k (k ∷ p.free_set)) ≡ false
      without (inl e) =
          subst (λ i. contains i (delete k (k ∷ p.free_set)) ≡ false) ((==_iff k j).0 e)
            (contains-delete k (k ∷ p.free_set))
      without (inr e) = contains-delete_other k j (k ∷ p.free_set) (rw (e, u.not_free) refl)

  -- FreePage of a page in use, outside a transaction, succeeds; AllocatePage then returns that page
  -- zero-filled, restores the free list's head and count, and every other page in use reads as before.
  pub free_page-allocate_page :
      (p : FilePager) (k : ℕ)
      → IsInUse p k
      → p.in_txn ≡ false
      → IsU64 p.free_list_head
      → p.page_count ≤ sentinel
      → (q : FilePager) × (r : FilePager) × (free_page crc32 none p k ≡ (q, ok tt))
        × (allocate_page crc32 none q ≡ (r, ok k))
        × (r.free_list_head ≡ p.free_list_head)
        × (r.free_count ≡ p.free_count)
        × (read_page crc32 none r k ≡ (r, ok (zeros body_size)))
        × ((j : ℕ)
            → k ≢ j
            → IsInUse p j
            → (read_page crc32 none r j).1 ≡ (read_page crc32 none p j).1)
  unfolding freed reused write_header
  free_page-allocate_page p k u out fits few =
      let pointer : List ℕ = encode_free_list_pointer p.free_list_head in
      let (file, w, here, other, kept) =
        write_body-read_body crc32 crc p.main_file k pointer
          (length-encode_free_list_pointer p.free_list_head) (omega (arith, u.in_file)) in
      let same : length file ≡ length p.main_file = kept u.in_file in
      let long : 1 < length file = omega (arith, same, u.in_file, u.is_data) in
      let q : FilePager = freed crc32 p k file in
      let (here_q, size_q) = freed-reads p k file k u.is_data long in
      let inside : k < length q.main_file = omega (arith, size_q, same, u.in_file) in
      let (file2, w2, here2, other2, kept2) =
        write_body-read_body crc32 crc q.main_file k (zeros body_size) (length-zeros body_size)
          (omega (arith, inside)) in
      let same2 : length file2 ≡ length p.main_file = kept2 inside ∙ size_q ∙ same in
      let long2 : 1 < length file2 = omega (arith, same2, u.in_file, u.is_data) in
      let r : FilePager = reused crc32 q p.free_list_head file2 in
      let usable : (j : ℕ) → IsInUse p j → IsInUse r j =
        cycle-IsInUse p k p.free_list_head file file2 long2 same2 in
      (
        q,
        r,
        free_lem crc32 p k file u out w,
        allocate_lem crc32 q p.free_list_head pointer file2 u.opened out
            (λ e. omega (arith, e, few, u.counted)) (here_q ∙ here)
            (decode-encode_free_list_pointer p.free_list_head fits) w2,
        refl,
        omega arith,
        reads_outside crc32 r k out (usable k u)
            ∙ ap (λ x. (r, x))
                ((reused-reads q p.free_list_head file2 k u.is_data long2).0 ∙ here2),
        λ j ne v.
            outside_result crc32 r j out (usable j v)
            ∙ (reused-reads q p.free_list_head file2 j v.is_data long2).0
            ∙ other2 j ne
            ∙ (freed-reads p k file j v.is_data long).0
            ∙ other j ne
            ∙ sym (outside_result crc32 p j out v),
      )
