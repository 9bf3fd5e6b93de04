-- ===== src/Kv/Pages.antt =====
-- The pager as the store calls it: calls that change its state and may fail.
use plomvix.Base.{ℕ, List, Option, Bool, if◌then◌else◌}
use plomvix.Base.Results.{Result, ok, err}
use plomvix.Pager
use plomvix.Pager.FilePager.{
  FilePager, read_page, write_page, allocate_page, free_page, begin_tx, commit_tx, rollback_tx,
  page_count_of,
}
use plomvix.Kv.{Bytes, Error, panicked, pager}

abbrev pub M : Type 0 → Type 0
M A = FilePager → FilePager × Result Error A

abbrev pub done : {A : Type 0} → A → M A
done a pg = (pg, ok a)

abbrev pub fail : {A : Type 0} → Error → M A
fail e pg = (pg, err e)

abbrev pub and_then :
    {A B : Type 0} → FilePager × Result Error A → (A → M B) → FilePager × Result Error B
and_then (pg, ok a) f = f a pg
and_then (pg, err e) f = (pg, err e)

infixl 5 ◌>>=◌ ◌>>◌
abbrev pub ◌>>=◌ : {A B : Type 0} → M A → (A → M B) → M B
◌>>=◌ m f pg = and_then (m pg) f

abbrev pub ◌>>◌ : {B : Type 0} → M (Unit {0}) → M B → M B
m >> k = m >>= λ _. k

-- A value or an error that no call of the pager gave.
abbrev pub lift : {A : Type 0} → Result Error A → M A
lift r pg = (pg, r)

-- `if !test { return err }`
abbrev pub check : Bool → Error → M (Unit {0})
check test e = if test then done tt else fail e

-- An error of the pager as the store passes it on.
abbrev pub wrap : {A : Type 0} → FilePager × Result Pager.Error A → FilePager × Result Error A
wrap (pg, ok a) = (pg, ok a)
wrap (pg, err e) = (pg, err (pager e))

module _ (crc32 : List ℕ → ℕ) (ctx : Option Pager.Error) where
  abbrev pub read : ℕ → M Bytes
  read page_id pg = wrap (read_page crc32 ctx pg page_id)

  abbrev pub write : ℕ → Bytes → M (Unit {0})
  write page_id body pg = wrap (write_page crc32 ctx pg page_id body)

  abbrev pub allocate : M ℕ
  allocate pg = wrap (allocate_page crc32 ctx pg)

  abbrev pub free : ℕ → M (Unit {0})
  free page_id pg = wrap (free_page crc32 ctx pg page_id)

  -- What follows a failed write in a transaction: RollbackTx, whose own error is dropped. A panic
  -- skips it.
  abbrev pub rolled_back : {A : Type 0} → FilePager × Result Error A → FilePager × Result Error A
  rolled_back (pg, ok a) = (pg, ok a)
  rolled_back (pg, err panicked) = (pg, err panicked)
  rolled_back (pg, err e) = ((rollback_tx ctx pg).0, err e)

  abbrev pub begin : M (Unit {0})
  begin pg = wrap (begin_tx ctx pg)

  abbrev pub commit : M (Unit {0})
  commit pg = wrap (commit_tx crc32 ctx pg)

  -- BeginTx, some writes, and CommitTx, or RollbackTx where a write fails.
  abbrev pub in_tx : {A : Type 0} → M A → M A
  in_tx writes = do begin; a ← (λ pg. rolled_back (writes pg)); commit; done a

abbrev pub count_pages : M ℕ
count_pages pg = wrap (page_count_of pg)
