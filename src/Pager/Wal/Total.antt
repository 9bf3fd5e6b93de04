-- ===== src/Pager/Wal/Total.antt =====
-- The loop over the log comes to an end on every input.
use plomvix.Base.{
  ℕ, zero, suc, ◌+◌, ◌≤◌, ◌<◌, ◌≡◌, refl, ap, ◌⊎◌, inl, inr, Bool, true, false, List, [], ◌∷◌,
  length, take, drop, length-drop, ◌==◌, ltb, leb, if◌then◌else◌, Result, ok, err, require, ◌>>◌,
  arith,
}
use plomvix.Pager.{Error, eof, wal_corrupt}
use plomvix.Pager.Header.{number_at}
use plomvix.Pager.Wal.{
  WalRecord, expected_length, decode_next_wal_record, Parsed, records, corrupt, before,
  parse_wal_loop, parse_wal,
}

-- A record that consumed bytes, a torn record, or a corrupt one.
Outcomes : Result Error (WalRecord × ℕ) → Type 0
Outcomes r =
    (r ≡ err eof)
    ⊎ ((r ≡ err wal_corrupt) ⊎ ((x : WalRecord) × (n : ℕ) × (0 < n) × (r ≡ ok (x, n))))

checks :
    (short shape room sum : Bool) (x : WalRecord) (n : ℕ)
    → Outcomes (
        if short
        then err eof
        else (require shape wal_corrupt
            >> (require room eof >> (require sum wal_corrupt >> ok (x, 20 + n + 4)))))
unfolding Outcomes
checks true shape room sum x n = inl refl
checks false false room sum x n = inr (inl refl)
checks false true false sum x n = inl refl
checks false true true false x n = inr (inl refl)
checks false true true true x n = inr (inr (x, 20 + n + 4, omega arith, refl))

-- The whole records that the loop found, or the corrupt one that it stopped at.
abbrev pub IsDone : Parsed → Type 0
IsDone p = ((rs : List WalRecord) × (p ≡ records rs)) ⊎ (p ≡ corrupt wal_corrupt)

before-IsDone : (r : WalRecord) (p : Parsed) → IsDone p → IsDone (before r p)
before-IsDone r p (inl (rs, e)) = inl (r ∷ rs, ap (before r) e)
before-IsDone r p (inr e) = inr (ap (before r) e)

module _ (crc32 : List ℕ → ℕ) where
  decode_next-Outcomes : (bs : List ℕ) → Outcomes (decode_next_wal_record crc32 bs)
  unfolding decode_next_wal_record
  decode_next-Outcomes bs =
      let n : ℕ = number_at bs 16 4 in
      checks (ltb (length bs) 20) (n == expected_length (number_at bs 8 8))
        (leb (20 + n + 4) (length bs)) (number_at bs (20 + n) 4 == crc32 (take (20 + n) bs))
        (record {
          txn_id = number_at bs 0 8;
          page_id = number_at bs 8 8;
          body = take n (drop 20 bs);
        })
        n

  parse_loop-IsDone :
      (fuel : ℕ) (bs : List ℕ) → length bs ≤ fuel → IsDone (parse_wal_loop crc32 fuel bs)
  unfolding parse_wal_loop Outcomes
  parse_loop-IsDone fuel [] h = inl ([], refl)
  parse_loop-IsDone zero (b ∷ bs) h = absurd (omega arith)
  parse_loop-IsDone (suc fuel) (b ∷ bs) h = elim (decode_next-Outcomes (b ∷ bs)) [
    | inl e ↦ rw (parse_wal_loop, e) (inl ([], refl))
    | inr (inl e) ↦ rw (parse_wal_loop, e) (inr refl)
    | inr (inr (x, n, some_bytes, e)) ↦
        rw (parse_wal_loop, e)
          (before-IsDone x _ (
            parse_loop-IsDone fuel (drop n (b ∷ bs))
              (omega (arith, h, some_bytes, length-drop n (b ∷ bs)))))
  ]

  -- The parsing of a log ends on every input, with whole records or at a corrupt one: the rounds
  -- are never used up.
  pub parse_wal-IsDone : (bs : List ℕ) → IsDone (parse_wal crc32 bs)
  unfolding parse_wal
  parse_wal-IsDone bs = parse_loop-IsDone (length bs) bs (omega arith)
