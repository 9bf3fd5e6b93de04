-- ===== src/Pager/Wal/Records.antt =====
-- A log of whole records parses to the records, and a torn record at its end is dropped.
use plomvix.Base.{
  ℕ, ◌+◌, ◌^◌, ◌<◌, ◌≡◌, refl, ap, ◌∙◌, true, false, List, ◌++◌, length, take, drop, ltb, leb, ok,
  arith, append_assoc, length-append, take-append, drop-append, ==_refl, ==_iff,
}
use plomvix.Base.Bytes.{put_be, get_be, length-put_be, get_be-put_be}
use plomvix.Base.Int.{IsU64}
use plomvix.Pager.{IsCrc32}
use plomvix.Pager.Header.{number_at}
use plomvix.Pager.Wal.{WalRecord, frame, sealed, expected_length, decode_next_wal_record}

-- A record that the program writes: a page's body, or the marker of a transaction's end.
pub record IsRecord (r : WalRecord) : Type 0 where
  pub txn_fits : IsU64 r.txn_id
  pub page_fits : IsU64 r.page_id
  pub size_ok : length r.body ≡ expected_length r.page_id

pub size_fits : (r : WalRecord) → IsRecord r → length r.body < 2 ^ 32
size_fits r v = ground (arith, v.size_ok)

-- The bytes under a record's checksum.
pub head : WalRecord → List ℕ
head r = frame r.txn_id r.page_id (length r.body) r.body

pub length-head : (r : WalRecord) → length (head r) ≡ 20 + length r.body
unfolding head put_be
length-head r = omega arith

-- What the decoder reads in the header of a record.
pub fields :
    (r : WalRecord) (rest : List ℕ)
    → IsRecord r
    → (number_at (head r ++ rest) 0 8 ≡ r.txn_id)
      × (number_at (head r ++ rest) 8 8 ≡ r.page_id)
      × (number_at (head r ++ rest) 16 4 ≡ length r.body)
unfolding head
fields r rest v = (
  unfold put_be in get_be-put_be 8 r.txn_id v.txn_fits,
  unfold put_be in get_be-put_be 8 r.page_id v.page_fits,
  unfold put_be in get_be-put_be 4 (length r.body) (size_fits r v),
)

body-head :
    (r : WalRecord) (rest : List ℕ) → take (length r.body) (drop 20 (head r ++ rest)) ≡ r.body
unfolding head put_be
body-head r rest = take-append (length r.body) r.body rest refl

module _ (crc32 : List ℕ → ℕ) (crc : IsCrc32 crc32) where
  -- The bytes of a record, of either form.
  pub encode : WalRecord → List ℕ
  encode r = sealed crc32 (head r)

  pub length-encode : (r : WalRecord) → length (encode r) ≡ 20 + length r.body + 4
  unfolding encode
  length-encode r = omega (
    arith,
    length-append (head r) (put_be 4 (crc32 (head r))),
    length-head r,
    length-put_be 4 (crc32 (head r)),
  )

  pub encode-eq : (r : WalRecord) → encode r ≡ head r ++ put_be 4 (crc32 (head r))
  unfolding encode
  encode-eq r = refl

  pub encode-frame :
      (r : WalRecord) → encode r ≡ sealed crc32 (frame r.txn_id r.page_id (length r.body) r.body)
  unfolding encode head
  encode-frame r = refl

  pub split :
      (r : WalRecord) (rest : List ℕ)
      → encode r ++ rest ≡ head r ++ (put_be 4 (crc32 (head r)) ++ rest)
  unfolding encode
  split r rest = append_assoc (head r) (put_be 4 (crc32 (head r))) rest

  crc-head :
      (r : WalRecord) (rest : List ℕ)
      → number_at (head r ++ (put_be 4 (crc32 (head r)) ++ rest)) (20 + length r.body) 4
        ≡ crc32 (head r)
  crc-head r rest =
      let w : List ℕ = put_be 4 (crc32 (head r)) in
      ap (λ (l : List ℕ). get_be (take 4 l))
        (drop-append (20 + length r.body) (head r) (w ++ rest) (length-head r))
      ∙ ap get_be (take-append 4 w rest (length-put_be 4 _))
      ∙ get_be-put_be 4 (crc32 (head r)) (omega (arith, crc.fits (head r)))

  length-rest :
      (r : WalRecord) (rest : List ℕ)
      → length (head r ++ (put_be 4 (crc32 (head r)) ++ rest))
        ≡ 20 + length r.body + 4 + length rest
  length-rest r rest = omega (
    arith,
    length-append (head r) (put_be 4 (crc32 (head r)) ++ rest),
    length-append (put_be 4 (crc32 (head r))) rest,
    length-head r,
    length-put_be 4 (crc32 (head r)),
  )

  -- The record at the front of a log is decoded, and its bytes are consumed.
  pub decode_next-encode :
      (r : WalRecord) (rest : List ℕ)
      → IsRecord r
      → decode_next_wal_record crc32 (encode r ++ rest) ≡ ok (r, length (encode r))
  decode_next-encode r rest v =
      let tail : List ℕ = put_be 4 (crc32 (head r)) ++ rest in
      let (txn, page, size) = fields r tail v in
      rw (split r rest, length-encode r)
        (unfold decode_next_wal_record in
          rw
            (
              length-rest r rest,
              txn,
              page,
              size,
              long (length r.body) (length rest),
              (==_iff (length r.body) (expected_length r.page_id)).1 v.size_ok,
              room (length r.body) (length rest),
              crc-head r rest,
              take-append (20 + length r.body) (head r) tail (length-head r),
              body-head r tail,
              ==_refl,
            )
            refl)
    where
      long : (m n : ℕ) → ltb (20 + m + 4 + n) 20 ≡ false
      long m n = ground arith

      room : (m n : ℕ) → leb (20 + m + 4) (20 + m + 4 + n) ≡ true
      room m n = ground arith
