-- ===== src/Pager/FilePager/Commit.antt =====
-- Whole transactions that end with CommitTx, with the checkpoint where one is due.
use plomvix.Base.{
  ℕ, ◌+◌, ◌<◌, ◌≡◌, refl, sym, ap, ◌∙◌, true, false, not, List, [], ◌∷◌, length, if◌then◌else◌,
  none, ok, arith, All, ◌*◌, ◌⊎◌, inl, inr, ◌≤◌, Bool, if_false, if_true, Bool-cases,
}
use plomvix.Base.Int.{ℤ, pos, negsuc, pos_part}
use plomvix.Pager.{sentinel, no_active_tx, IsCrc32}
use plomvix.Pager.Wal.{encode_eot_marker}
use plomvix.Pager.Disk.{lookup, write_pages, read_body_unchecked}
use plomvix.Pager.FilePager.{
  FilePager, checkpoint_due, is_open, when, check_state, read_page, commit_tx, log_commit,
  checkpoint,
}
use plomvix.Pager.FilePager.Reads.{IsInUse, guard-pass, outside_result}
use plomvix.Pager.FilePager.Logged.{
  images, length-eot, write_log-IsLogged, over-again, checkpoint-transaction,
}
use plomvix.Pager.FilePager.Buffers.{puts, puts-IsMap, Fits, puts-Fits, over, write_pages-reads}
use plomvix.Pager.FilePager.Transactions.{IsWrite, transaction, inside, begun, transaction-writes}

-- The commit of `n` writes needs no checkpoint, or it starts with an empty log and a file whose pages have ids
-- below the sentinel.
abbrev pub HasRoom : FilePager → ℕ → Type 0
HasRoom p n =
    (p.wal_size + 4108 * n + 24 < pos_part p.checkpoint_threshold)
    ⊎ (p.wal_size ≡ 0) × (length p.main_file ≤ sentinel)

module _ (crc32 : List ℕ → ℕ) (crc : IsCrc32 crc32) where
  -- The state once the marker is logged and the buffer is written to the main file.
  applied : FilePager → List (List ℕ) → FilePager
  applied q file = record (log_commit crc32 q) { main_file = file }

  commit_lem :
      (q : FilePager) (file : List (List ℕ))
      → q.state ≡ is_open
      → q.in_txn ≡ true
      → write_pages crc32 q.txn_buffer q.main_file ≡ (file, ok tt)
      → commit_tx crc32 none q ≡ (
          if checkpoint_due q.checkpoint_threshold (applied q file).wal_size
          then checkpoint crc32 (applied q file)
          else (applied q file, ok tt))
  unfolding commit_tx log_commit applied
  commit_lem q file o e w =
      guard-pass (check_state q.state) q _ (ap check_state o)
      ∙ guard-pass _ q _ (ap (λ b. when (not b) no_active_tx) e)
      ∙ rw w
          (ap (λ x. if due then checkpoint crc32 (applied q (x.0)) else (applied q (x.0), ok tt)) w)
    where
      due : Bool
      due =
          checkpoint_due q.checkpoint_threshold
            (q.wal_size + length (encode_eot_marker crc32 q.current_txn))

  writes-Fits :
      (p : FilePager) (ws : List (ℕ × List ℕ))
      → All (IsWrite p) ws
      → All (Fits (length p.main_file)) ws
  writes-Fits p [] h = tt
  writes-Fits p ((k, body) ∷ ws) h = ((h.0.0.in_file, h.0.1), writes-Fits p ws h.1)

  not_due : (t : ℤ) (n m : ℕ) → n ≡ m + 24 → m + 24 < pos_part t → checkpoint_due t n ≡ false
  not_due (pos t) n m e h = ground arith
  not_due (negsuc t) n m e h = absurd (omega (arith, h))

  -- What a committed transaction shows, from the reads of the files.
  result :
      (p q : FilePager) (ws : List (ℕ × List ℕ))
      → transaction crc32 ws (commit_tx crc32 none) p ≡ (q, ok tt)
      → p.in_txn ≡ false
      → q.in_txn ≡ false
      → ((j : ℕ) → IsInUse p j → IsInUse q j)
      → ((j : ℕ)
          → read_body_unchecked crc32 q.main_file j
            ≡ over (lookup j (puts ws [])) (read_body_unchecked crc32 p.main_file j))
      → (q : FilePager) × (transaction crc32 ws (commit_tx crc32 none) p ≡ (q, ok tt))
        × (q.in_txn ≡ false)
        × ((j : ℕ)
            → IsInUse p j
            → (read_page crc32 none q j).1
              ≡ over (lookup j (puts ws [])) ((read_page crc32 none p j).1))
  result p q ws run e f stays reads = (
    q,
    run,
    f,
    λ j u.
        outside_result crc32 q j f (stays j u)
        ∙ reads j
        ∙ ap (over (lookup j (puts ws []))) (sym (outside_result crc32 p j e u)),
  )

  -- A transaction of writes of the right size to pages in use commits, with a checkpoint where one is due:
  -- the log stays below a positive checkpoint threshold, or it was empty, whatever the threshold, in a file
  -- of no more pages than ids. Each page in use then reads as its last write, or as before if it was not
  -- written.
  pub transaction-commit :
      (p : FilePager) (ws : List (ℕ × List ℕ))
      → p.state ≡ is_open
      → p.in_txn ≡ false
      → All (IsWrite p) ws
      → HasRoom p (length ws)
      → (q : FilePager) × (transaction crc32 ws (commit_tx crc32 none) p ≡ (q, ok tt))
        × (q.in_txn ≡ false)
        × ((j : ℕ)
            → IsInUse p j
            → (read_page crc32 none q j).1
              ≡ over (lookup j (puts ws [])) ((read_page crc32 none p j).1))
  unfolding begun applied log_commit
  transaction-commit p ws o e h room =
      let (wal, size, run, grown, logged) =
        transaction-writes crc32 p ws (commit_tx crc32 none) o e h in
      let fits = writes-Fits p ws h in
      let (file, w, reads, same) =
        write_pages-reads crc32 crc (puts ws []) p.main_file (puts-IsMap ws [] tt)
          (puts-Fits (length p.main_file) ws [] fits tt) in
      let r : FilePager = inside crc32 (begun crc32 p) wal size (puts ws []) in
      let q : FilePager = applied r file in
      let committed = run ∙ commit_lem r file o refl w in
      let t : ℕ = r.current_txn in
      let stays : (after : List (List ℕ)) (log : List ℕ) (n : ℕ)
          → length after ≡ length file
          → (j : ℕ) → IsInUse p j
          → IsInUse (record q { main_file = after; wal_file = log; wal_size = n }) j =
        λ after log n g j u. record {
          opened = u.opened;
          is_data = u.is_data;
          counted = u.counted;
          not_free = u.not_free;
          in_file = omega (arith, u.in_file, same, g);
        } in
      let plain = λ (due : checkpoint_due p.checkpoint_threshold q.wal_size ≡ false).
        result p q ws (committed ∙ if_false _ _ _ due) e refl
          (stays file q.wal_file q.wal_size refl) reads in
      elim room [
        | inl small ↦ plain (
            not_due p.checkpoint_threshold q.wal_size size (ap (λ n. size + n) (length-eot crc32 t))
              (omega (arith, small, grown)))
        | inr (empty, few) ↦ (elim (Bool-cases (checkpoint_due p.checkpoint_threshold q.wal_size)) [
          | inr early ↦ plain early
          | inl due ↦
              (let (after, run2, reads2, same2) =
                  checkpoint-transaction crc32 crc t (length p.main_file) few q ws (omega arith)
                    same fits (omega (arith, ap (λ n. size + n) (length-eot crc32 t)))
                    (write_log-IsLogged (images crc32 t ws) wal (encode_eot_marker crc32 t) size
                      (logged [] (sym empty, p.wal_file, refl))) in
                result p (record q { main_file = after; wal_file = []; wal_size = 0 }) ws
                  (committed ∙ if_true _ _ _ due ∙ run2) e refl (stays after [] 0 same2)
                  (λ j.
                    reads2 j
                    ∙ ap (over (lookup j (puts ws []))) (reads j)
                    ∙ over-again (lookup j (puts ws [])) (read_body_unchecked crc32 p.main_file j)))
        ])
      ]
