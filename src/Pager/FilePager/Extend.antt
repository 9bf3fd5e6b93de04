-- ===== src/Pager/FilePager/Extend.antt =====
-- AllocatePage where the free list is empty: the file grows by a page.
use plomvix.Base.{
  ℕ, zero, suc, Option, some, Result, ◌>>=◌, err, get_elem?, ◌≤◌, ◌<◌, ◌≡◌, refl, sym, ap, ◌∙◌,
  false, not, List, [], ◌∷◌, length, none, ok, arith, ◌==◌, if_false,
}
use plomvix.Pager.{Error, io_read, tx_unsupported_op, body_size, sentinel, IsCrc32}
use plomvix.Pager.Page.{zeros, length-zeros, decode_data_page, encode_data_page}
use mathlib.Core.Path.{subst}
use plomvix.Pager.Disk.{write_at, length-write_at_grown, read_body_unchecked, write_body_unchecked}
use plomvix.Pager.FilePager.{
  FilePager, is_open, when, contains, check_state, write_header, read_page, allocate_page,
}
use plomvix.Pager.FilePager.Reads.{
  IsInUse, write_body-read_body, guard-pass, reads_outside, outside_result, direct_lem,
}
use plomvix.Pager.FilePager.FreeList.{write_header-reads}

in_list : {A : Type 0} (xs : List A) (j : ℕ) (x : A) → get_elem? xs j ≡ some x → j < length xs
in_list [] j x h = cc
in_list (y ∷ xs) zero x h = omega arith
in_list (y ∷ xs) (suc j) x h = omega (arith, in_list xs j x h)

module _ (crc32 : List ℕ → ℕ) where
  pub body_in_file :
      (disk : List (List ℕ)) (j : ℕ) (body : List ℕ)
      → read_body_unchecked crc32 disk j ≡ ok body
      → j < length disk
  unfolding read_body_unchecked
  body_in_file disk j body h = found (get_elem? disk j) refl h
    where
      found :
          (o : Option (List ℕ))
          → get_elem? disk j ≡ o
          → (elim o as (λ x. Result Error (List ℕ)) [
            | none ↦ err io_read
            | some image ↦ decode_data_page crc32 image
          ])
            ≡ ok body
          → j < length disk
      found none e h = cc
      found (some image) e h = in_list disk j image e

  -- A written page adds no more than itself to a file that it does not lie beyond.
  length-write_body :
      (disk file : List (List ℕ)) (k : ℕ) (body : List ℕ)
      → k ≤ length disk
      → write_body_unchecked crc32 disk k body ≡ ok file
      → length file ≤ suc (length disk)
  unfolding write_body_unchecked
  length-write_body disk file k body h w = ended (encode_data_page crc32 body) w
    where
      ended :
          (r : Result Error (List ℕ))
          → (r >>= λ image. ok (write_at k image disk)) ≡ ok file
          → length file ≤ suc (length disk)
      ended (ok image) e =
          subst (λ f. length f ≤ suc (length disk)) (value e) (length-write_at_grown k image disk h)
        where
          value :
              ◌≡◌ {A = Result Error (List (List ℕ))} (ok (write_at k image disk)) (ok file)
              → write_at k image disk ≡ file
          value q = cc
      ended (err x) e = cc

  -- What AllocatePage leaves where it extends the file.
  abbrev extended : FilePager → List (List ℕ) → FilePager
  extended p file =
      write_header crc32 (record p { main_file = file; page_count = suc p.page_count })
        (suc p.page_count) p.free_list_head

  extend_lem :
      (p : FilePager) (file : List (List ℕ))
      → p.state ≡ is_open
      → p.in_txn ≡ false
      → p.free_list_head ≡ sentinel
      → write_body_unchecked crc32 p.main_file p.page_count (zeros body_size) ≡ ok file
      → allocate_page crc32 none p ≡ (extended p file, ok p.page_count)
  unfolding allocate_page
  extend_lem p file o out e w =
      guard-pass (check_state p.state) p _ (ap check_state o)
      ∙ guard-pass _ p _ (ap (λ b. when b tx_unsupported_op) out)
      ∙ if_false _ _ _ (ap (λ h. not (h == sentinel)) e)
      ∙ direct_lem crc32 p p.page_count (zeros body_size) file _ w

-- From `p` to `q` the file has grown by the page `k`, which reads as zeros; the pages in use stay in use and
-- read as before, and the rest of the state is the same.
pub record IsExtended (crc32 : List ℕ → ℕ) (p q : FilePager) (k : ℕ) : Type 0 where
  pub outside : q.in_txn ≡ false
  pub fresh : IsInUse q k
  pub zeroed : read_page crc32 none q k ≡ (q, ok (zeros body_size))
  pub in_use : (j : ℕ) → IsInUse p j → IsInUse q j
  pub others : (j : ℕ) → IsInUse p j → (read_page crc32 none q j).1 ≡ (read_page crc32 none p j).1
  pub counted : q.page_count ≡ suc k
  pub free_list : (q.free_list_head ≡ p.free_list_head) × (q.free_set ≡ p.free_set)
  pub log : (q.wal_size ≡ p.wal_size) × (q.checkpoint_threshold ≡ p.checkpoint_threshold)
  pub whole : q.page_count ≤ length q.main_file
  pub grown : length q.main_file ≤ suc (length p.main_file)

module _ (crc32 : List ℕ → ℕ) (crc : IsCrc32 crc32) where
  -- AllocatePage outside a transaction, with an empty free list and the whole file there, succeeds: it
  -- extends the file by a page of zeros, the first that the page count did not count.
  pub allocate_page-extends :
      (p : FilePager)
      → p.state ≡ is_open
      → p.in_txn ≡ false
      → p.free_list_head ≡ sentinel
      → 2 ≤ p.page_count
      → p.page_count ≤ length p.main_file
      → contains p.page_count p.free_set ≡ false
      → (q : FilePager) × (allocate_page crc32 none p ≡ (q, ok p.page_count))
        × IsExtended crc32 p q p.page_count
  unfolding write_header
  allocate_page-extends p o out empty two whole not_free =
      let k : ℕ = p.page_count in
      let (file, w, here, other, kept) =
        write_body-read_body crc32 crc p.main_file k (zeros body_size) (length-zeros body_size)
          whole in
      let inside : k < length file = body_in_file crc32 file k (zeros body_size) here in
      let q : FilePager = extended crc32 p file in
      let kept_pages = λ (j : ℕ) (h : 2 ≤ j).
        write_header-reads crc32 (record p { main_file = file; page_count = suc k }) (suc k)
          p.free_list_head j h (omega (arith, inside, two)) in
      let size : length q.main_file ≡ length file = (kept_pages k two).1 in
      let fresh : IsInUse q k = record {
        opened = o;
        is_data = two;
        counted = omega arith;
        not_free = not_free;
        in_file = omega (arith, size, inside);
      } in
      let usable : (j : ℕ) → IsInUse p j → IsInUse q j = λ j u. record {
        opened = o;
        is_data = u.is_data;
        counted = omega (arith, u.counted);
        not_free = u.not_free;
        in_file = omega (arith, size, inside, u.counted);
      } in
      (
        q,
        extend_lem crc32 p file o out empty w,
        record {
          outside = out;
          fresh = fresh;
          zeroed =
              reads_outside crc32 q k out fresh ∙ ap (λ r. (q, r)) ((kept_pages k two).0 ∙ here);
          in_use = usable;
          others = λ j u.
              outside_result crc32 q j out (usable j u)
              ∙ (kept_pages j u.is_data).0
              ∙ other j (λ e. omega (arith, e, u.counted))
              ∙ sym (outside_result crc32 p j out u);
          counted = refl;
          free_list = (refl, refl);
          log = (refl, refl);
          whole = omega (arith, size, inside);
          grown =
              omega
                (arith, size, length-write_body crc32 p.main_file file k (zeros body_size) whole w);
        },
      )
