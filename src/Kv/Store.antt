-- ===== src/Kv/Store.antt =====
-- A tree's pages as the pager gives them outside a transaction, and one page written in a transaction
-- of its own.
use plomvix.Base.{
  ℕ, ◌≡◌, refl, sym, ap, ◌∙◌, Bool, true, false, List, [], ◌∷◌, Option, none, some, Result, ok, err,
  if◌then◌else◌,
}
use plomvix.Pager
use plomvix.Pager.{body_size, invalid_page_id, IsCrc32}
use plomvix.Pager.Disk.{lookup, read_body_unchecked}
use plomvix.Pager.FilePager.{
  FilePager, is_open, begin_tx, write_page, commit_tx, read_page, guard, check_state,
  validate_page_id, when, contains,
}
use plomvix.Pager.FilePager.Transactions.{transaction, run_writes}
use plomvix.Kv.{Bytes, Error}
use plomvix.Kv.Pages.{M, done, and_then, wrap, rolled_back, ◌>>=◌, read, write, in_tx}

abbrev pager_then :
    Pager.FilePager.Outcome (Unit {0})
    → (FilePager → Pager.FilePager.Outcome (Unit {0}))
    → Pager.FilePager.Outcome (Unit {0})
pager_then o next = Pager.FilePager.Transactions.and_then o next

module _ (crc32 : List ℕ → ℕ) where
  -- ReadPage leaves the pager.
  pub read_page_keeps :
      (ctx : Option Pager.Error) (p : FilePager) (j : ℕ)
      → read_page crc32 ctx p j ≡ (p, (read_page crc32 ctx p j).1)
  unfolding read_page
  read_page_keeps ctx p j = guarded ctx _ (
      guarded (check_state p.state) _ (
        guarded (validate_page_id p j) _ (
          guarded (when (contains j p.free_set) invalid_page_id) _
            (unguarded p.in_txn (lookup j p.txn_buffer)))))
    where
      guarded :
          (o : Option Pager.Error) (k : Pager.FilePager.Outcome (List ℕ))
          → k ≡ (p, k.1)
          → guard o p k ≡ (p, (guard o p k).1)
      guarded none k h = h
      guarded (some e) k h = refl

      unbuffered : Pager.FilePager.Outcome (List ℕ)
      unbuffered = (p, read_body_unchecked crc32 p.main_file j)

      buffered : Option (List ℕ) → Pager.FilePager.Outcome (List ℕ)
      buffered o = elim o [ some body ↦ (p, ok body) | none ↦ unbuffered ]

      unguarded :
          (b : Bool) (o : Option (List ℕ))
          → (if b then buffered o else unbuffered) ≡ (p, (if b then buffered o else unbuffered).1)
      unguarded true (some body) = refl
      unguarded true none = refl
      unguarded false o = refl

  -- A transaction of the pager that succeeds is one of the store's.
  transaction_steps :
      (begun : Pager.FilePager.Outcome (Unit {0}))
      (written finished : FilePager → Pager.FilePager.Outcome (Unit {0})) (q : FilePager)
      → pager_then begun (λ p. pager_then (written p) finished) ≡ (q, ok tt)
      → and_then (wrap begun) (λ u pg.
        and_then
          (rolled_back crc32 none (wrap (written pg)))
          (λ a r. and_then (wrap (finished r)) (λ w x. (x, ok a))))
        ≡ (q, ok tt)
  transaction_steps (p, err e) written finished q h = cc
  transaction_steps (p, ok u) written finished q h = second (written p) h
    where
      third :
          (o : Pager.FilePager.Outcome (Unit {0}))
          → o ≡ (q, ok tt)
          → and_then (wrap o) (λ w x. (x, ok tt)) ≡ (q, ok tt)
      third (r, err e) h = cc
      third (r, ok w) h = ap (λ x. (x.0, ok tt)) h

      second :
          (o : Pager.FilePager.Outcome (Unit {0}))
          → pager_then o finished ≡ (q, ok tt)
          → and_then
              (rolled_back crc32 none (wrap o))
              (λ a r. and_then (wrap (finished r)) (λ w x. (x, ok a)))
            ≡ (q, ok tt)
      second (r, err e) h = cc
      second (r, ok a) h = third (finished r) h

  -- Writes of pages, one after the other.
  unfoldable pub write_all : List (ℕ × Bytes) → M (Unit {0})
  write_all [] = done tt
  write_all ((k, body) ∷ ws) = write crc32 none k body >>= λ u. write_all ws

  write_all-run_writes :
      (ws : List (ℕ × Bytes)) (p : FilePager) → write_all ws p ≡ wrap (run_writes crc32 ws p)
  unfolding write_all
  write_all-run_writes [] p = refl
  write_all-run_writes ((k, body) ∷ ws) p =
      next (λ q. write_all-run_writes ws q) (write_page crc32 none p k body)
    where
      next :
          ((q : FilePager) → write_all ws q ≡ wrap (run_writes crc32 ws q))
          → (o : Pager.FilePager.Outcome (Unit {0}))
          → and_then (wrap o) (λ u. write_all ws) ≡ wrap (pager_then o (λ q. run_writes crc32 ws q))
      next rest (q, ok u) = rest q
      next rest (q, err e) = refl

  -- Where the pager's transaction of some writes commits, the store's does.
  pub in_tx-transaction :
      (ws : List (ℕ × Bytes)) (p q : FilePager)
      → transaction crc32 ws (commit_tx crc32 none) p ≡ (q, ok tt)
      → in_tx crc32 none (write_all ws) p ≡ (q, ok tt)
  in_tx-transaction ws p q h =
      ap (λ m. in_tx crc32 none m p) (λ i pg. write_all-run_writes ws pg i)
      ∙ transaction_steps (begin_tx none p) (run_writes crc32 ws) (commit_tx crc32 none) q h

  -- What a page reads as.
  abbrev pub body_at : FilePager → ℕ → Result Error Bytes
  body_at p j = (read crc32 none j p).1

  pub read-body_at : (p : FilePager) (j : ℕ) → read crc32 none j p ≡ (p, body_at p j)
  read-body_at p j =
      ap wrap (read_page_keeps none p j)
      ∙ wrapped ((read_page crc32 none p j).1)
      ∙ ap (λ o. (p, (wrap o).1)) (sym (read_page_keeps none p j))
    where
      wrapped : (r : Result Pager.Error Bytes) → wrap (p, r) ≡ (p, (wrap (p, r)).1)
      wrapped (ok body) = refl
      wrapped (err e) = refl
