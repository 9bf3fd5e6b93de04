-- ===== src/Pager/Wal/Committed.antt =====
-- The replay of a log writes its committed transactions and nothing else.
use plomvix.Base.{
  ℕ, ◌≤◌, ◌<◌, ◌≡◌, refl, sym, ap, ◌∙◌, Bool, true, false, List, [], ◌∷◌, ◌++◌, length, map,
  if◌then◌else◌, Result, ok, err, ◌==◌, arith, All, All-append, Bool-cases, inl, inr,
}
use mathlib.Core.Path.{subst}
use plomvix.Base.Int.{IsU64}
use plomvix.Pager.{Error, sentinel, body_size, IsCrc32}
use plomvix.Pager.Disk.{lookup, read_body_unchecked, write_pages}
use plomvix.Pager.Wal.{
  WalRecord, expected_length, Parsed, records, corrupt, stuck, parse_wal, parse_wal_loop,
}
use plomvix.Pager.Wal.Records.{IsRecord}
use plomvix.Pager.Wal.Parse.{log_of, IsTorn, parse_wal-log_of}
use plomvix.Pager.Wal.Replay.{group_records, has_eot, last_writes, apply_groups, replay_wal}
use plomvix.Pager.Wal.Groups.{
  Txn, page_record, end_records, txn_records, all_records, group_of, IsDistinct, IsPage,
  group_records-all_records, has_eot-records, last_writes-records,
}
use plomvix.Pager.FilePager.Buffers.{puts, puts-IsMap, puts-Fits, Fits, over, write_pages-reads}

-- What a page reads as once the committed ones of some transactions are written, in order.
abbrev pub as_committed : List Txn → ℕ → Result Error (List ℕ) → Result Error (List ℕ)
as_committed [] j old = old
as_committed (x ∷ xs) j old =
    as_committed xs j (if x.committed then over (lookup j (puts x.writes [])) old else old)

-- A transaction that left a record in the log, with writes to a file of `n` pages.
pub record IsTxn (n : ℕ) (x : Txn) : Type 0 where
  pub id_fits : IsU64 x.id
  pub left_record : 0 < length (txn_records x)
  pub fits : All (Fits n) x.writes

module _ (n : ℕ) (few : n ≤ sentinel) where
  pages : (ws : List (ℕ × List ℕ)) → All (Fits n) ws → All IsPage ws
  pages [] h = tt
  pages (w ∷ ws) h = (omega (arith, few, h.0.0), pages ws h.1)

  records-IsRecord :
      (t : ℕ) (ws : List (ℕ × List ℕ)) (c : Bool)
      → IsU64 t
      → All (Fits n) ws
      → All IsRecord (map (page_record t) ws ++ end_records t c)
  records-IsRecord t [] true u h =
      (record { txn_fits = u; page_fits = omega arith; size_ok = refl }, tt)
  records-IsRecord t [] false u h = tt
  records-IsRecord t (w ∷ ws) c u h = (
    record {
      txn_fits = u;
      page_fits = omega (arith, few, h.0.0);
      size_ok = size (w.0) (w.1) (omega (arith, few, h.0.0)) (h.0.1);
    },
    records-IsRecord t ws c u h.1,
  )
    where
      size :
          (k : ℕ) (body : List ℕ)
          → k < sentinel
          → length body ≡ body_size
          → length body ≡ expected_length k
      size k body h e = e ∙ ap (λ b. if b then 0 else body_size) (sym (not_sentinel k h))
        where
          not_sentinel : (k : ℕ) → k < sentinel → (k == sentinel) ≡ false
          not_sentinel k h = ground (arith, h)

  all_records-IsRecord : (xs : List Txn) → All (IsTxn n) xs → All IsRecord (all_records xs)
  all_records-IsRecord [] h = tt
  all_records-IsRecord (x ∷ xs) h =
      All-append IsRecord (txn_records x) (all_records xs)
        (records-IsRecord x.id x.writes x.committed h.0.id_fits h.0.fits)
        (all_records-IsRecord xs h.1)

  left : (xs : List Txn) → All (IsTxn n) xs → All (λ x. 0 < length (txn_records x)) xs
  left [] h = tt
  left (x ∷ xs) h = (h.0.left_record, left xs h.1)

module _ (crc32 : List ℕ → ℕ) where
  apply-skip :
      (t : ℕ) (rs : List WalRecord) (gs : List (ℕ × List WalRecord)) (disk : List (List ℕ))
      → has_eot rs ≡ false
      → apply_groups crc32 ((t, rs) ∷ gs) disk ≡ apply_groups crc32 gs disk
  unfolding apply_groups
  apply-skip t rs gs disk e = rw e refl

  apply-write :
      (t : ℕ) (rs : List WalRecord) (gs : List (ℕ × List WalRecord)) (disk file : List (List ℕ))
      → has_eot rs ≡ true
      → write_pages crc32 (last_writes rs []) disk ≡ (file, ok tt)
      → apply_groups crc32 ((t, rs) ∷ gs) disk ≡ apply_groups crc32 gs file
  unfolding apply_groups
  apply-write t rs gs disk file e w = rw (e, w) (ap (λ x. apply_groups crc32 gs (x.0)) w)

  abbrev applied_of : List (List ℕ) → Parsed → List (List ℕ) × Result Error (Unit {0})
  applied_of disk (records rs) = apply_groups crc32 (group_records rs []) disk
  applied_of disk (corrupt e) = (disk, err e)
  applied_of disk stuck = (disk, ok tt)

  replay-parsed :
      (disk after : List (List ℕ)) (wal : List ℕ) (rs : List WalRecord)
      → parse_wal crc32 wal ≡ records rs
      → apply_groups crc32 (group_records rs []) disk ≡ (after, ok tt)
      → replay_wal crc32 disk wal ≡ (after, [], ok tt)
  unfolding replay_wal parse_wal parse_wal_loop apply_groups
  replay-parsed disk after [] rs p a = ap (λ x. (x.0, [], x.1)) (ap (applied_of disk) p ∙ a)
  replay-parsed disk after (b ∷ bs) rs p a = rw (replay_wal, p, a) (ap (λ x. (x.0, [], ok tt)) a)

module _ (crc32 : List ℕ → ℕ) (crc : IsCrc32 crc32) where
  apply_groups-committed :
      (xs : List Txn) (disk : List (List ℕ))
      → length disk ≤ sentinel
      → All (IsTxn (length disk)) xs
      → (after : List (List ℕ)) × (apply_groups crc32 (map group_of xs) disk ≡ (after, ok tt))
        × ((j : ℕ)
            → read_body_unchecked crc32 after j
              ≡ as_committed xs j (read_body_unchecked crc32 disk j))
        × (length after ≡ length disk)
  apply_groups-committed [] disk few h = (disk, (unfold apply_groups in refl), λ j. refl, refl)
  apply_groups-committed (x ∷ xs) disk few h = elim (Bool-cases x.committed) [
    | inl e ↦
        (let (file, w, reads, same) =
            write_pages-reads crc32 crc (puts x.writes []) disk (puts-IsMap x.writes [] tt)
              (puts-Fits (length disk) x.writes [] h.0.fits tt) in
          let (after, rest, reads_rest, same_rest) =
            apply_groups-committed xs file (omega (arith, same, few))
              (subst (λ n. All (IsTxn n) xs) (sym same) h.1) in
          (
            after,
            apply-write crc32 x.id (txn_records x) (map group_of xs) disk file
                  (has_eot-records x.id x.writes x.committed ws ∙ e)
                  (ap (λ m. write_pages crc32 m disk)
                      (last_writes-records x.id x.writes x.committed [] ws)
                    ∙ w)
                ∙ rest,
            λ j.
                reads_rest j
                ∙ ap (as_committed xs j) (
                    reads j
                    ∙ sym (
                        ap
                          (λ b.
                            if b
                            then over (lookup j (puts x.writes []))
                                (read_body_unchecked crc32 disk j)
                            else read_body_unchecked crc32 disk j)
                          e)),
            same_rest ∙ same,
          ))
    | inr e ↦
        (let (after, rest, reads_rest, same_rest) = apply_groups-committed xs disk few h.1 in
          (
            after,
            apply-skip crc32 x.id (txn_records x) (map group_of xs) disk
                  (has_eot-records x.id x.writes x.committed ws ∙ e)
                ∙ rest,
            λ j.
                reads_rest j
                ∙ ap (as_committed xs j) (
                    sym (
                      ap
                        (λ b.
                          if b
                          then over (lookup j (puts x.writes [])) (read_body_unchecked crc32 disk j)
                          else read_body_unchecked crc32 disk j)
                        e)),
            same_rest,
          ))
  ]
    where
      ws : All IsPage x.writes
      ws = pages (length disk) few x.writes h.0.fits

  -- Replaying the log of distinct transactions, a torn record at its end, succeeds and empties the
  -- log: each page reads as the last write of the committed ones, in the order of the log, or as
  -- before, whatever the others wrote.
  pub replay_wal-committed :
      (xs : List Txn) (disk : List (List ℕ)) (torn : List ℕ)
      → IsDistinct xs
      → length disk ≤ sentinel
      → All (IsTxn (length disk)) xs
      → IsTorn crc32 crc torn
      → (after : List (List ℕ)) × (replay_wal crc32 disk (log_of crc32 crc (all_records xs) ++ torn)
          ≡ (after, [], ok tt))
        × ((j : ℕ)
            → read_body_unchecked crc32 after j
              ≡ as_committed xs j (read_body_unchecked crc32 disk j))
        × (length after ≡ length disk)
  replay_wal-committed xs disk torn d few h t =
      let (after, done, reads, same) = apply_groups-committed xs disk few h in
      (
        after,
        replay-parsed crc32 disk after _ (all_records xs)
            (parse_wal-log_of crc32 crc (all_records xs) torn
              (all_records-IsRecord (length disk) few xs h) t)
            (ap (λ gs. apply_groups crc32 gs disk)
                (group_records-all_records xs d (left (length disk) few xs h))
              ∙ done),
        reads,
        same,
      )
