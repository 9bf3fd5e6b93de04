-- ===== src/Pager/Wal/Parse.antt =====
-- The parsing of a whole log, with a record torn by a crash at its end.
use plomvix.Base.{
  ℕ, zero, suc, ◌+◌, ◌≤◌, ◌<◌, ◌≡◌, refl, sym, ap, ap₂, ◌∙◌, if◌then◌else◌, false, List, [], ◌∷◌,
  ◌++◌, inl, inr, Bool-cases, length, take, drop, ◌==◌, ltb, leb, ok, err, arith, append_assoc, All,
  length-append, drop-append, ==_iff,
}
use native.Mathlib.Nat.{mod-eq_of_lt}
use plomvix.Base.Bytes.{get_be, put_be}
use plomvix.Pager.{eof, sentinel, IsCrc32}
use plomvix.Pager.Header.{number_at}
use plomvix.Pager.Wal.{
  WalRecord, frame, sealed, encode_wal_record, encode_eot_marker, expected_length,
  decode_next_wal_record, records, before, parse_wal_loop, parse_wal,
}
use plomvix.Pager.Wal.Records.{
  IsRecord, head, fields, encode, length-encode, encode-eq, encode-frame, size_fits,
  decode_next-encode,
}

module _ {ℓ} {A : Type ℓ} where
  take-prefix : (n : ℕ) (xs ys : List A) → n ≤ length xs → take n (xs ++ ys) ≡ take n xs
  take-prefix zero xs ys h = refl
  take-prefix (suc n) [] ys h = absurd (omega arith)
  take-prefix (suc n) (x ∷ xs) ys h = ap (λ l. x ∷ l) (take-prefix n xs ys (omega arith))

  window-prefix :
      (off n : ℕ) (xs ys : List A)
      → off + n ≤ length xs
      → take n (drop off (xs ++ ys)) ≡ take n (drop off xs)
  window-prefix zero n xs ys h = take-prefix n xs ys (omega (arith, h))
  window-prefix (suc off) n [] ys h = absurd (omega (arith, h))
  window-prefix (suc off) n (x ∷ xs) ys h = window-prefix off n xs ys (omega (arith, h))

number_at-prefix :
    (xs ys : List ℕ) (off n : ℕ)
    → off + n ≤ length xs
    → number_at (xs ++ ys) off n ≡ number_at xs off n
number_at-prefix xs ys off n h = ap get_be (window-prefix off n xs ys h)

module _ (crc32 : List ℕ → ℕ) (crc : IsCrc32 crc32) where
  -- What the program writes for a record: a transaction's end, or a page.
  abbrev pub written : WalRecord → List ℕ
  written r =
      if r.page_id == sentinel
      then encode_eot_marker crc32 r.txn_id
      else encode_wal_record crc32 r.txn_id r.page_id r.body

  empty : (bs : List ℕ) → length bs ≡ 0 → bs ≡ []
  empty [] h = refl
  empty (b ∷ bs) h = absurd (omega arith)

  marker-frame :
      (r : WalRecord)
      → IsRecord r
      → r.page_id ≡ sentinel
      → encode_eot_marker crc32 r.txn_id
        ≡ sealed crc32 (frame r.txn_id r.page_id (length r.body) r.body)
  unfolding encode_eot_marker
  marker-frame r v same =
      ap₂ (λ (k : ℕ) (b : List ℕ). sealed crc32 (frame r.txn_id k (length b) b)) (sym same)
        (sym (empty r.body (v.size_ok ∙ ap expected_length same)))

  page-frame :
      (r : WalRecord)
      → IsRecord r
      → encode_wal_record crc32 r.txn_id r.page_id r.body
        ≡ sealed crc32 (frame r.txn_id r.page_id (length r.body) r.body)
  unfolding encode_wal_record
  page-frame r v =
      ap (λ n. sealed crc32 (frame r.txn_id r.page_id n r.body)) (mod-eq_of_lt (size_fits r v))

  written-encode : (r : WalRecord) → IsRecord r → written r ≡ encode crc32 crc r
  written-encode r v = elim (Bool-cases (r.page_id == sentinel)) [
    | inl e ↦
        ap (λ b. if b then marker else page) e
        ∙ marker-frame r v ((==_iff r.page_id sentinel).0 e)
        ∙ sym (encode-frame crc32 crc r)
    | inr e ↦
        ap (λ b. if b then marker else page) e ∙ page-frame r v ∙ sym (encode-frame crc32 crc r)
  ]
    where
      marker : List ℕ
      marker = encode_eot_marker crc32 r.txn_id

      page : List ℕ
      page = encode_wal_record crc32 r.txn_id r.page_id r.body

  pub encode_all : List WalRecord → List ℕ
  encode_all [] = []
  encode_all (r ∷ rs) = encode crc32 crc r ++ encode_all rs

  -- The log that the program writes.
  abbrev pub log_of : List WalRecord → List ℕ
  log_of [] = []
  log_of (r ∷ rs) = written r ++ log_of rs

  log_of-encode_all : (rs : List WalRecord) → All IsRecord rs → log_of rs ≡ encode_all rs
  unfolding encode_all
  log_of-encode_all [] vs = refl
  log_of-encode_all (r ∷ rs) vs =
      ap₂ (λ a b. a ++ b) (written-encode r vs.0) (log_of-encode_all rs vs.1)

  -- What a crash leaves of the record being written: nothing, or a part of it.
  abbrev pub IsTorn : List ℕ → Type 0
  IsTorn torn =
      (r : WalRecord) × (rest : List ℕ) × IsRecord r
      × (torn ++ rest ≡ written r)
      × (0 < length rest)

  torn_fields :
      (torn rest : List ℕ) (r : WalRecord)
      → IsRecord r
      → torn ++ rest ≡ encode crc32 crc r
      → 20 ≤ length torn
      → (number_at torn 8 8 ≡ r.page_id) × (number_at torn 16 4 ≡ length r.body)
  torn_fields torn rest r v e h =
      let tail : List ℕ = put_be 4 (crc32 (head r)) in
      let whole : torn ++ rest ≡ head r ++ tail = e ∙ encode-eq crc32 crc r in
      let (txn, page, size) = fields r tail v in
      (
        sym (number_at-prefix torn rest 8 8 (omega (arith, h)))
            ∙ ap (λ (l : List ℕ). number_at l 8 8) whole
            ∙ page,
        sym (number_at-prefix torn rest 16 4 (omega (arith, h)))
            ∙ ap (λ (l : List ℕ). number_at l 16 4) whole
            ∙ size,
      )

  torn_length :
      (torn rest : List ℕ) (r : WalRecord)
      → torn ++ rest ≡ encode crc32 crc r
      → length torn + length rest ≡ 20 + length r.body + 4
  torn_length torn rest r e =
      sym (length-append torn rest) ∙ ap length e ∙ length-encode crc32 crc r

  short : (m n k : ℕ) → m + n ≡ 20 + k + 4 → 0 < n → leb (20 + k + 4) m ≡ false
  short m n k h more = ground arith

  decode_next-torn : (torn : List ℕ) → IsTorn torn → decode_next_wal_record crc32 torn ≡ err eof
  unfolding decode_next_wal_record
  decode_next-torn torn (r, rest, v, e, more) = elim (Bool-cases (ltb (length torn) 20)) [
    | inl small ↦ rw small refl
    | inr large ↦
        (let (page, size) =
            torn_fields torn rest r v (e ∙ written-encode r v) (ground (arith, large)) in
          rw
            (
              large,
              page,
              size,
              (==_iff (length r.body) (expected_length r.page_id)).1 v.size_ok,
              short (length torn) (length rest) (length r.body)
                  (torn_length torn rest r (e ∙ written-encode r v)) more,
            )
            refl)
  ]

  parse-step :
      (fuel : ℕ) (bs : List ℕ) (r : WalRecord) (n : ℕ)
      → 0 < length bs
      → decode_next_wal_record crc32 bs ≡ ok (r, n)
      → parse_wal_loop crc32 (suc fuel) bs ≡ before r (parse_wal_loop crc32 fuel (drop n bs))
  unfolding parse_wal_loop
  parse-step fuel [] r n h e = absurd (omega arith)
  parse-step fuel (b ∷ bs) r n h e = rw (parse_wal_loop, e) refl

  parse-torn :
      (fuel : ℕ) (torn : List ℕ)
      → IsTorn torn
      → length torn ≤ fuel
      → parse_wal_loop crc32 fuel torn ≡ records []
  unfolding parse_wal_loop
  parse-torn fuel [] t h = refl
  parse-torn zero (b ∷ bs) t h = absurd (omega arith)
  parse-torn (suc fuel) (b ∷ bs) t h = rw (parse_wal_loop, decode_next-torn (b ∷ bs) t) refl

  length-front :
      (r : WalRecord) (rest : List ℕ)
      → length (encode crc32 crc r ++ rest) ≡ 20 + length r.body + 4 + length rest
  length-front r rest =
      omega (arith, length-append (encode crc32 crc r) rest, length-encode crc32 crc r)

  parse_loop-encode_all :
      (fuel : ℕ) (rs : List WalRecord) (torn : List ℕ)
      → All IsRecord rs
      → IsTorn torn
      → length (encode_all rs ++ torn) ≤ fuel
      → parse_wal_loop crc32 fuel (encode_all rs ++ torn) ≡ records rs
  unfolding encode_all
  parse_loop-encode_all fuel [] torn vs t h = parse-torn fuel torn t h
  parse_loop-encode_all zero (r ∷ rs) torn vs t h = absurd (
      omega (
        arith,
        h,
        length-front r (encode_all rs),
        length-append (encode crc32 crc r ++ encode_all rs) torn,
      ))
  parse_loop-encode_all (suc n) (r ∷ rs) torn vs t h =
      rw (append_assoc (encode crc32 crc r) (encode_all rs) torn) (
        parse-step n _ r _ (omega (arith, long)) (decode_next-encode crc32 crc r rest vs.0)
        ∙ ap (λ l. before r (parse_wal_loop crc32 n l))
            (drop-append _ (encode crc32 crc r) rest refl)
        ∙ ap (before r) (parse_loop-encode_all n rs torn vs.1 t (omega (arith, h, long, same))))
    where
      rest : List ℕ
      rest = encode_all rs ++ torn

      long : length (encode crc32 crc r ++ rest) ≡ 20 + length r.body + 4 + length rest
      long = length-front r rest

      same :
          length ((encode crc32 crc r ++ encode_all rs) ++ torn)
          ≡ length (encode crc32 crc r ++ rest)
      same = ap length (append_assoc (encode crc32 crc r) (encode_all rs) torn)

  -- A log of records as the program writes them, with a record torn by a crash at its end or
  -- nothing behind, parses to the whole records.
  pub parse_wal-log_of :
      (rs : List WalRecord) (torn : List ℕ)
      → All IsRecord rs
      → IsTorn torn
      → parse_wal crc32 (log_of rs ++ torn) ≡ records rs
  unfolding parse_wal
  parse_wal-log_of rs torn vs t =
      rw (log_of-encode_all rs vs) (parse_loop-encode_all _ rs torn vs t (omega arith))
