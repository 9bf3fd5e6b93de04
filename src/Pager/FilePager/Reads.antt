-- ===== src/Pager/FilePager/Reads.antt =====
-- What ReadPage returns after WritePage, in and out of a transaction.
use plomvix.Base.{
  ℕ, ◌≤◌, ◌<◌, ◌≡◌, ◌≢◌, refl, sym, ap, ◌∙◌, Bool, true, false, not, List, [], ◌∷◌, length, ◌==◌,
  ◌||◌, leb, if◌then◌else◌, Option, none, some, Result, ok, arith, ==_refl, ==_ne, ==_iff,
  Bool-cases, inl, inr,
}
use plomvix.Pager.{Error, invalid_page_id, body_size_mismatch, body_size, IsCrc32}
use plomvix.Pager.Page.{encode_data_page-total}
use plomvix.Pager.Disk.{
  write_at, get-write_at, get-write_at_other, length-write_at, lookup, put, read_body_unchecked,
  write_body_unchecked,
}
use plomvix.Pager.FilePager.{
  FilePager, Outcome, is_open, when, contains, validate_page_id, guard, page_guard, check_state,
  read_page, append_wal, write_direct, write_page,
}

-- The page can be read and written: the pager is open, and the page is in use and in the file.
pub record IsInUse (p : FilePager) (page_id : ℕ) : Type 0 where
  pub opened : p.state ≡ is_open
  pub is_data : 2 ≤ page_id
  pub counted : page_id < p.page_count
  pub not_free : contains page_id p.free_set ≡ false
  pub in_file : page_id < length p.main_file

pub lookup-put :
    (k : ℕ) (body : List ℕ) (m : List (ℕ × List ℕ)) → lookup k (put k body m) ≡ some body
lookup-put k body [] = rw ==_refl refl
lookup-put k body ((j, b) ∷ m) = elim (Bool-cases (j == k)) [
  | inl e ↦ rw (e, ==_refl) refl
  | inr e ↦ rw (e, e) (lookup-put k body m)
]

pub lookup-put_other :
    (k j : ℕ) (body : List ℕ) (m : List (ℕ × List ℕ)) → k ≢ j → lookup j (put k body m) ≡ lookup j m
lookup-put_other k j body [] ne = rw (==_ne k j ne) refl
lookup-put_other k j body ((i, b) ∷ m) ne = elim (Bool-cases (i == k)) [
  | inl e ↦ rw (e, ==_ne k j ne, ==_ne i j (λ f. ne (sym ((==_iff i k).0 e) ∙ f))) refl
  | inr e ↦ rw e (ap (λ o. if i == j then some b else o) (lookup-put_other k j body m ne))
]

module _ (crc32 : List ℕ → ℕ) (crc : IsCrc32 crc32) where
  -- A body of the right size is written, read back, and no other page changes.
  pub write_body-read_body :
      (disk : List (List ℕ)) (k : ℕ) (body : List ℕ)
      → length body ≡ body_size
      → k ≤ length disk
      → (file : List (List ℕ)) × (write_body_unchecked crc32 disk k body ≡ ok file)
        × (read_body_unchecked crc32 file k ≡ ok body)
        × ((j : ℕ) → k ≢ j → read_body_unchecked crc32 file j ≡ read_body_unchecked crc32 disk j)
        × (k < length disk → length file ≡ length disk)
  unfolding read_body_unchecked
  write_body-read_body disk k body size h =
      let (image, e, s, d) = encode_data_page-total crc32 crc body size in
      (
        write_at k image disk,
        (unfold write_body_unchecked in rw e refl),
        rw (read_body_unchecked, get-write_at k image disk) d,
        λ j ne. rw (read_body_unchecked, get-write_at_other k j image disk ne h) refl,
        λ inside. length-write_at k image disk inside,
      )

-- A call whose guards let it through.
pub guard-pass :
    {A : Type 0} (o : Option Error) (p : FilePager) (k : Outcome A) → o ≡ none → guard o p k ≡ k
guard-pass o p k e = rw e refl

valid : (p : FilePager) (page_id : ℕ) → IsInUse p page_id → validate_page_id p page_id ≡ none
valid p page_id u =
    ap (λ b. when b invalid_page_id) (in_range page_id p.page_count u.is_data u.counted)
  where
    in_range : (k n : ℕ) → 2 ≤ k → k < n → (k == 0 || (k == 1 || leb n k)) ≡ false
    in_range k n two h = ground arith

page_guard-pass :
    {A : Type 0} (p : FilePager) (page_id : ℕ) (k : Outcome A)
    → IsInUse p page_id
    → page_guard none p page_id k ≡ k
page_guard-pass p page_id k u =
    guard-pass (check_state p.state) p _ (ap check_state u.opened)
    ∙ guard-pass (validate_page_id p page_id) p _ (valid p page_id u)
    ∙ guard-pass _ p k (ap (λ b. when b invalid_page_id) u.not_free)

module _ (crc32 : List ℕ → ℕ) where
  pub write_guards :
      (p : FilePager) (k : ℕ) (body : List ℕ)
      → IsInUse p k
      → length body ≡ body_size
      → write_page crc32 none p k body ≡ (
          if p.in_txn
          then append_wal crc32 p k body
          else write_direct crc32 p k body (λ q. (q, ok tt)))
  unfolding write_page
  write_guards p k body u size =
      page_guard-pass p k _ u
      ∙ guard-pass _ p _
          (ap (λ b. when (not b) body_size_mismatch) ((==_iff (length body) body_size).1 size))

  pub direct_lem :
      {A : Type 0} (p : FilePager) (k : ℕ) (body : List ℕ) (file : List (List ℕ))
      (next : FilePager → Outcome A)
      → write_body_unchecked crc32 p.main_file k body ≡ ok file
      → write_direct crc32 p k body next ≡ next (record p { main_file = file })
  unfolding write_direct
  direct_lem p k body file next e = rw (write_direct, e) refl

  -- The body that a transaction, or else the file, has for a page.
  unfoldable pub view : FilePager → ℕ → Result Error (List ℕ)
  view p j =
      if p.in_txn
      then (elim (lookup j p.txn_buffer) [
        | some body ↦ ok body
        | none ↦ read_body_unchecked crc32 p.main_file j
      ])
      else read_body_unchecked crc32 p.main_file j

  pub read_page-view :
      (p : FilePager) (j : ℕ) → IsInUse p j → read_page crc32 none p j ≡ (p, view p j)
  unfolding read_page view
  read_page-view p j u = page_guard-pass p j _ u ∙ unguarded p.in_txn (lookup j p.txn_buffer)
    where
      unguarded :
          (b : Bool) (o : Option (List ℕ))
          → (if b
              then (elim o as (λ x. Outcome (List ℕ)) [
                | some body ↦ (p, ok body)
                | none ↦ (p, read_body_unchecked crc32 p.main_file j)
              ])
              else (p, read_body_unchecked crc32 p.main_file j))
            ≡ (
              p,
              if b
                  then (elim o as (λ x. Result Error (List ℕ)) [
                    | some body ↦ ok body
                    | none ↦ read_body_unchecked crc32 p.main_file j
                  ])
                  else read_body_unchecked crc32 p.main_file j,
            )
      unguarded true (some body) = refl
      unguarded true none = refl
      unguarded false o = refl

module _ (crc32 : List ℕ → ℕ) (p : FilePager) (j : ℕ) where
  -- Outside a transaction a page in use reads as the file has it.
  pub reads_outside :
      p.in_txn ≡ false
      → IsInUse p j
      → read_page crc32 none p j ≡ (p, read_body_unchecked crc32 p.main_file j)
  unfolding view
  reads_outside e u = read_page-view crc32 p j u ∙ ap (λ r. (p, r)) (rw e refl)

  pub outside_result :
      p.in_txn ≡ false
      → IsInUse p j
      → (read_page crc32 none p j).1 ≡ read_body_unchecked crc32 p.main_file j
  outside_result e u = ap (λ x. x.1) (reads_outside e u)

-- After `p`, at `q`, the page `k` reads as `body`, every other page as before, and the pages in use
-- are the same.
pub record IsWritten (crc32 : List ℕ → ℕ) (p q : FilePager) (k : ℕ) (body : List ℕ) : Type 0 where
  pub reads : read_page crc32 none q k ≡ (q, ok body)
  pub others :
      (j : ℕ) → k ≢ j → IsInUse p j → (read_page crc32 none q j).1 ≡ (read_page crc32 none p j).1
  pub in_use : (j : ℕ) → IsInUse p j → IsInUse q j

module _ (crc32 : List ℕ → ℕ) (crc : IsCrc32 crc32) where
  written :
      (p q : FilePager) (k : ℕ) (body : List ℕ)
      → IsInUse p k
      → view crc32 q k ≡ ok body
      → ((j : ℕ) → k ≢ j → view crc32 q j ≡ view crc32 p j)
      → ((j : ℕ) → IsInUse p j → IsInUse q j)
      → IsWritten crc32 p q k body
  written p q k body u v other same = record {
    reads = read_page-view crc32 q k (same k u) ∙ ap (λ r. (q, r)) v;
    others = λ j ne w.
        ap (λ o. o.1) (read_page-view crc32 q j (same j w))
        ∙ other j ne
        ∙ sym (ap (λ o. o.1) (read_page-view crc32 p j w));
    in_use = same;
  }

  buffered : FilePager → ℕ → List ℕ → FilePager
  buffered p k body = (append_wal crc32 p k body).0

  write_inside :
      (p : FilePager) (k : ℕ) (body : List ℕ)
      → IsInUse p k
      → p.in_txn ≡ true
      → IsWritten crc32 p (buffered p k body) k body
  unfolding buffered append_wal
  write_inside p k body u inside =
      written p (buffered p k body) k body u
        (unfold view in rw (inside, lookup-put k body p.txn_buffer) refl)
        (λ j ne. unfold view in rw (inside, lookup-put_other k j body p.txn_buffer ne) refl)
        (λ j w. record {
          opened = w.opened;
          is_data = w.is_data;
          counted = w.counted;
          not_free = w.not_free;
          in_file = w.in_file;
        })

  -- WritePage of a body of the right size to a page in use succeeds, in or out of a transaction:
  -- the page then reads as the body, and every other page in use as before.
  pub write_page-read_page :
      (p : FilePager) (k : ℕ) (body : List ℕ)
      → IsInUse p k
      → length body ≡ body_size
      → (q : FilePager) × (write_page crc32 none p k body ≡ (q, ok tt))
        × (q.in_txn ≡ p.in_txn)
        × IsWritten crc32 p q k body
  write_page-read_page p k body u size = elim (Bool-cases p.in_txn) [
    | inl inside ↦ (
      buffered p k body,
      write_guards crc32 p k body u size
          ∙ ap
              (λ b.
                if b
                then append_wal crc32 p k body
                else write_direct crc32 p k body (λ q. (q, ok tt)))
              inside
          ∙ (unfold buffered append_wal in refl),
      (unfold buffered append_wal in refl),
      write_inside p k body u inside,
    )
    | inr outside ↦
        (let (file, w, r, other, size_kept) =
            write_body-read_body crc32 crc p.main_file k body size (omega (arith, u.in_file)) in
          let q : FilePager = record p { main_file = file } in
          (
            q,
            write_guards crc32 p k body u size
                ∙ ap
                    (λ b.
                      if b
                      then append_wal crc32 p k body
                      else write_direct crc32 p k body (λ q. (q, ok tt)))
                    outside
                ∙ direct_lem crc32 p k body file _ w,
            refl,
            written p q k body u (unfold view in rw outside r)
                (λ j ne. unfold view in rw outside (other j ne))
                (λ j x. record {
                  opened = x.opened;
                  is_data = x.is_data;
                  counted = x.counted;
                  not_free = x.not_free;
                  in_file = omega (arith, x.in_file, size_kept u.in_file);
                }),
          ))
  ]
