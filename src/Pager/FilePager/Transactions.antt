-- ===== src/Pager/FilePager/Transactions.antt =====
-- Whole transactions: BeginTx, a list of WritePage calls, then RollbackTx.
use plomvix.Base.{
  ℕ, suc, ◌+◌, ◌%◌, ◌^◌, ◌≡◌, refl, sym, ap, ◌∙◌, true, false, List, [], ◌∷◌, length, if◌then◌else◌,
  none, ok, err, arith, All, length-append, ◌*◌, ◌++◌, append-nil, append_assoc,
}
use mathlib.Core.Path.{subst}
use plomvix.Pager.{body_size, tx_already_active}
use plomvix.Base.Bytes.{put_be}
use plomvix.Pager.Wal.{encode_wal_record, frame}
use plomvix.Pager.Disk.{put}
use plomvix.Pager.FilePager.{
  FilePager, Outcome, is_open, when, check_state, write_log, read_page, append_wal, write_direct,
  write_page, begin_tx, rollback_tx,
}
use plomvix.Pager.FilePager.Reads.{IsInUse, write_guards, guard-pass, outside_result}
use plomvix.Pager.FilePager.Logged.{IsLogged, images, write_log-IsLogged}
use plomvix.Pager.FilePager.Buffers.{puts}

-- One call after the other, up to the first that fails.
abbrev pub and_then : Outcome (Unit {0}) → (FilePager → Outcome (Unit {0})) → Outcome (Unit {0})
and_then (q, ok u) next = next q
and_then (q, err e) next = (q, err e)

-- A write to a page in use, of the right size.
abbrev pub IsWrite : FilePager → ℕ × List ℕ → Type 0
IsWrite p w = IsInUse p w.0 × (length w.1 ≡ body_size)

module _ (crc32 : List ℕ → ℕ) where
  abbrev pub run_writes : List (ℕ × List ℕ) → FilePager → Outcome (Unit {0})
  run_writes [] p = (p, ok tt)
  run_writes ((k, body) ∷ ws) p = and_then (write_page crc32 none p k body) (λ q. run_writes ws q)

  abbrev pub transaction :
      List (ℕ × List ℕ) → (FilePager → Outcome (Unit {0})) → FilePager → Outcome (Unit {0})
  transaction ws finish p = and_then (begin_tx none p) (λ q. and_then (run_writes ws q) finish)

  -- The state in a transaction after some writes: the log and the buffer have grown.
  abbrev pub inside : FilePager → List ℕ → ℕ → List (ℕ × List ℕ) → FilePager
  inside p wal size m = record p { wal_file = wal; wal_size = size; txn_buffer = m }

  writes_mono :
      (p q : FilePager)
      → ((j : ℕ) → IsInUse p j → IsInUse q j)
      → (ws : List (ℕ × List ℕ)) → All (IsWrite p) ws
      → All (IsWrite q) ws
  writes_mono p q f [] h = tt
  writes_mono p q f ((k, body) ∷ ws) h = ((f k h.0.0, h.0.1), writes_mono p q f ws h.1)

  length-wal_record :
      (t k : ℕ) (body : List ℕ)
      → length body ≡ body_size
      → length (encode_wal_record crc32 t k body) ≡ 4108
  unfolding encode_wal_record put_be
  length-wal_record t k body e =
      omega
        (arith, e, length-append body (put_be 4 (crc32 (frame t k (length body % 2 ^ 32) body))))

  -- Writes in a transaction go to the log and the buffer alone.
  run_writes-inside :
      (ws : List (ℕ × List ℕ)) (p : FilePager)
      → p.in_txn ≡ true
      → All (IsWrite p) ws
      → (wal : List ℕ) × (size : ℕ) × (run_writes ws p
          ≡ (inside p wal size (puts ws p.txn_buffer), ok tt))
        × (size ≡ p.wal_size + 4108 * length ws)
        × ((l : List ℕ)
            → IsLogged l p.wal_file p.wal_size
            → IsLogged (l ++ images crc32 p.current_txn ws) wal size)
  run_writes-inside [] p e h = (
    p.wal_file,
    p.wal_size,
    refl,
    omega arith,
    λ l g. subst (λ x. IsLogged x p.wal_file p.wal_size) (sym (append-nil l)) g,
  )
  run_writes-inside ((k, body) ∷ ws) p e h =
      let bytes : List ℕ = encode_wal_record crc32 p.current_txn k body in
      let q : FilePager =
        inside p (write_log p.wal_size bytes p.wal_file) (p.wal_size + length bytes)
          (put k body p.txn_buffer) in
      let same : (j : ℕ) → IsInUse p j → IsInUse q j = λ j u. record {
        opened = u.opened;
        is_data = u.is_data;
        counted = u.counted;
        not_free = u.not_free;
        in_file = u.in_file;
      } in
      let (wal, size, run, grown, logged) =
        run_writes-inside ws q e (writes_mono p q same ws h.1) in
      (
        wal,
        size,
        ap (λ o. and_then o (λ r. run_writes ws r)) (appended p k body e h.0) ∙ run,
        omega (arith, grown, length-wal_record p.current_txn k body h.0.1),
        λ l g.
            subst (λ x. IsLogged x wal size) (append_assoc l bytes (images crc32 p.current_txn ws))
              (logged (l ++ bytes) (write_log-IsLogged l p.wal_file bytes p.wal_size g)),
      )
    where
      appended :
          (p : FilePager) (k : ℕ) (body : List ℕ)
          → p.in_txn ≡ true
          → IsWrite p (k, body)
          → write_page crc32 none p k body ≡ (
            inside p
                (write_log p.wal_size (encode_wal_record crc32 p.current_txn k body) p.wal_file)
                (p.wal_size + length (encode_wal_record crc32 p.current_txn k body))
                (put k body p.txn_buffer),
            ok tt,
          )
      appended p k body e h =
          write_guards crc32 p k body h.0 h.1
          ∙ ap
              (λ b.
                if b
                then append_wal crc32 p k body
                else write_direct crc32 p k body (λ q. (q, ok tt)))
              e
          ∙ (unfold append_wal in refl)

  unfoldable pub begun : FilePager → FilePager
  begun p = record p {
    in_txn = true;
    next_txn_id = suc p.next_txn_id % 2 ^ 64;
    current_txn = suc p.next_txn_id % 2 ^ 64;
    txn_buffer = [];
  }

  begin_lem :
      (p : FilePager) → p.state ≡ is_open → p.in_txn ≡ false → begin_tx none p ≡ (begun p, ok tt)
  unfolding begin_tx begun
  begin_lem p o e =
      guard-pass (check_state p.state) p _ (ap check_state o)
      ∙ guard-pass _ p _ (ap (λ b. when b tx_already_active) e)

  -- The log and its size when a transaction's writes are done.
  pub transaction-writes :
      (p : FilePager) (ws : List (ℕ × List ℕ)) (finish : FilePager → Outcome (Unit {0}))
      → p.state ≡ is_open
      → p.in_txn ≡ false
      → All (IsWrite p) ws
      → (wal : List ℕ) × (size : ℕ) × (transaction ws finish p
          ≡ finish (inside (begun p) wal size (puts ws [])))
        × (size ≡ p.wal_size + 4108 * length ws)
        × ((l : List ℕ)
            → IsLogged l p.wal_file p.wal_size
            → IsLogged (l ++ images crc32 (begun p).current_txn ws) wal size)
  unfolding begun
  transaction-writes p ws finish o e h =
      let same : (j : ℕ) → IsInUse p j → IsInUse (begun p) j = λ j u. record {
        opened = u.opened;
        is_data = u.is_data;
        counted = u.counted;
        not_free = u.not_free;
        in_file = u.in_file;
      } in
      let (wal, size, run, grown, logged) =
        run_writes-inside ws (begun p) refl (writes_mono p (begun p) same ws h) in
      (
        wal,
        size,
        ap (λ x. and_then x (λ q. and_then (run_writes ws q) finish)) (begin_lem p o e)
            ∙ ap (λ x. and_then x finish) run,
        grown,
        logged,
      )

  -- A transaction that is rolled back leaves the file, and every page in use reads as before.
  pub transaction-rollback :
      (p : FilePager) (ws : List (ℕ × List ℕ))
      → p.state ≡ is_open
      → p.in_txn ≡ false
      → All (IsWrite p) ws
      → (q : FilePager) × (transaction ws (rollback_tx none) p ≡ (q, ok tt))
        × (q.in_txn ≡ false)
        × (q.main_file ≡ p.main_file)
        × ((j : ℕ) → IsInUse p j → (read_page crc32 none q j).1 ≡ (read_page crc32 none p j).1)
  unfolding begun
  transaction-rollback p ws o e h =
      let (wal, size, run, grown, logged) = transaction-writes p ws (rollback_tx none) o e h in
      let q : FilePager = record (inside (begun p) wal size (puts ws [])) {
        in_txn = false;
        txn_buffer = [];
        current_txn = 0;
      } in
      (
        q,
        run ∙ (unfold rollback_tx in guard-pass (check_state p.state) _ _ (ap check_state o)),
        refl,
        refl,
        λ j u.
            outside_result crc32 q j refl (record {
              opened = u.opened;
              is_data = u.is_data;
              counted = u.counted;
              not_free = u.not_free;
              in_file = u.in_file;
            })
            ∙ sym (outside_result crc32 p j e u),
      )
